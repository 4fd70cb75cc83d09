-- ===== src/Clients/UdpClient.antt =====
-- socket/clients/udp_client/main.cpp: one datagram is sent. Nothing sets the array beyond the
-- text, so what the memory held is an argument.
pub mod Greeting
use unix_ipc.Prelude.{
  ℕ, Bytes, ℤ, pos, [], ◌∷◌, ◌++◌, store_at, load_at, c_string, ◌==◌, if◌then◌else◌,
}
use unix_ipc.Sys.{
  makes_socket, sends, prints, no_terminator, out_of_bounds, Prog, pure, exit, or_fault, call_,
  result_of, ◌>>=◌, ◌>>◌,
}
use unix_ipc.Engine.Address.{af_inet, sock_dgram}
use unix_ipc.Servers.SimpleUdp.{local_address}

-- "Hello Server\n"
abbrev pub hello : Bytes
hello = 72 ∷ 101 ∷ 108 ∷ 108 ∷ 111 ∷ 32 ∷ 83 ∷ 101 ∷ 114 ∷ 118 ∷ 101 ∷ 114 ∷ 10 ∷ []

-- `strcpy`, `sendto` of the whole array, and `printf`.
unfoldable pub send : Bytes → ℤ → ℕ → Prog ℤ
send memory sockfd port = do
  buffer ← or_fault (store_at memory 0 (hello ++ 0 ∷ [])) out_of_bounds
  datagram ← or_fault (load_at buffer 0 1024) out_of_bounds
  call_ (sends sockfd datagram (local_address port))
  text ← or_fault (c_string buffer) no_terminator
  call_ (prints text)
  pure (pos 0)

-- `main`: `port` is the value of `atoi(argv[1])`, and `memory` the 1024 bytes of `buffer`.
unfoldable pub main : Bytes → ℕ → ℕ → Prog ℤ
unfolding send
main memory argc port =
    if argc == 2
    then (do sockfd ← result_of (makes_socket af_inet sock_dgram); send memory sockfd port)
    else exit (pos 0)
