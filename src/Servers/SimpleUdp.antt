-- ===== src/Servers/SimpleUdp.antt =====
-- socket/servers/simple_udp_server/main.cpp: one datagram is received and shown. Nothing sets the
-- array that it comes into, so what the memory held is an argument.
use unix_ipc.Prelude.{
  ℕ, Bytes, ℤ, pos, ◌∷◌, ◌++◌, replicate, le_bytes, fill, c_string, ◌==◌, if◌then◌else◌,
}
use unix_ipc.Sys.{
  makes_socket, binds, receives, prints, no_terminator, Prog, pure, exit, or_fault, call, call_,
  result_of, ◌>>=◌, ◌>>◌,
}
use unix_ipc.Engine.Address.{af_inet, sock_dgram, htons_bytes}

-- The `sockaddr_in` of `inet_addr("127.0.0.1")` and the port.
abbrev pub local_address : ℕ → Bytes
local_address port = le_bytes 2 af_inet ++ htons_bytes port ++ 127 ∷ 0 ∷ 0 ∷ 1 ∷ replicate 8 0

-- `recvfrom` and `printf`.
unfoldable pub receive : Bytes → ℤ → Prog ℤ
receive memory sockfd = do
  r ← call (receives sockfd 1024)
  text ← or_fault (c_string (fill memory r.bytes)) no_terminator
  call_ (prints text)
  pure (pos 0)

-- `main`: `port` is the value of `atoi(argv[1])`, and `memory` the 1024 bytes of `buffer`.
unfoldable pub main : Bytes → ℕ → ℕ → Prog ℤ
unfolding receive
main memory argc port =
    if argc == 2
    then (do
      sockfd ← result_of (makes_socket af_inet sock_dgram)
      call_ (binds sockfd (local_address port))
      receive memory sockfd)
    else exit (pos 0)
