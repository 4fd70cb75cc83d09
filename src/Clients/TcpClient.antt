-- ===== src/Clients/TcpClient.antt =====
-- socket/clients/tcp_client/main.cpp: a client that sends the words of its input, each as a line,
-- and shows what comes back. The words come from `std::cin`.
pub mod Session
pub mod Talking
pub mod Address
pub mod Overflow
use unix_ipc.Prelude.{
  ℕ, zero, suc, ◌+◌, Bool, true, false, Option, none, some, Bytes, ℤ, pos, List, [], ◌∷◌, ◌++◌,
  length, if◌then◌else◌, fill, store_at, le_bytes, replicate, c_string, bytes_eq,
}
use unix_ipc.Sys.{
  reads, writes, closes, makes_socket, connects, reads_word, prints, out_of_bounds, no_terminator,
  null_pointer, Prog, pure, or_fault, spent, call, call_, result_of, ◌>>=◌, ◌>>◌,
}
use unix_ipc.Engine.Address.{af_inet, sock_stream, htons_bytes, inet_pton}
use unix_ipc.Servers.Request.{error_handler, request_buffer, stop}

-- "close\r\n"
abbrev pub close : Bytes
close = 99 ∷ 108 ∷ 111 ∷ 115 ∷ 101 ∷ 13 ∷ 10 ∷ []

-- `std::cin >> buff` and the two assignments that end the line.
unfoldable pub read_line : Bytes → Prog Bytes
read_line buff = do
  r ← call reads_word
  word ← or_fault (store_at buff 0 (r.bytes ++ 0 ∷ [])) out_of_bounds
  text ← or_fault (c_string word) no_terminator
  returned ← or_fault (store_at word (length text) (13 ∷ [])) out_of_bounds
  or_fault (store_at returned (length text + 1) (10 ∷ [])) out_of_bounds

-- The end of a round: `request` (`data`) is sent, and the answer comes into the same buffer.
unfoldable pub exchange : ℕ → Bytes → Bytes → Prog (Unit {0})
unfolding error_handler
exchange sockfd buff request = do
  sent ← result_of (writes (pos sockfd) request)
  _ ← error_handler sent
  r ← call (reads (pos sockfd) 1024)
  _ ← error_handler r.result
  text ← or_fault (c_string (fill buff r.bytes)) no_terminator
  call_ (prints text)

-- The loop of `main`, whose rounds begin with `buff` cleared.
unfoldable pub talk : ℕ → ℕ → Prog (Unit {0})
unfolding read_line exchange
talk zero sockfd = spent
talk (suc fuel) sockfd = do
  buff ← read_line request_buffer
  request ← or_fault (c_string buff) no_terminator
  let round = (do
    exchange sockfd buff request
    if bytes_eq request stop then pure tt else talk fuel sockfd)
  if bytes_eq request close then pure tt else round

-- `serverAddress` for the text `ip` and the port, `none` where there is no `argv[2]`: `inet_pton` is handed the whole structure.
unfoldable pub server_address : Bytes → Option ℕ → Prog Bytes
unfolding inet_pton error_handler
server_address ip port = do
  (res, address) ← inet_pton ip (le_bytes 2 af_inet ++ replicate 14 0)
  _ ← error_handler res
  number ← or_fault port null_pointer
  or_fault (store_at address 2 (htons_bytes number)) out_of_bounds

-- `main`: `ip` is `argv[1]`, and `port` what `std::stoi` makes of `argv[2]`; `none` where there is
-- no such argument.
unfoldable pub main : ℕ → Option Bytes → Option ℕ → Prog ℤ
unfolding talk server_address
main fuel ip port = do
  made ← result_of (makes_socket af_inet sock_stream)
  sockfd ← error_handler made
  text ← or_fault ip null_pointer
  address ← server_address text port
  connected ← result_of (connects (pos sockfd) address)
  _ ← error_handler connected
  talk fuel sockfd
  call_ (closes (pos sockfd))
  pure (pos 0)
