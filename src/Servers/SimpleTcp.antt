-- ===== src/Servers/SimpleTcp.antt =====
-- socket/servers/simple_tcp_server/main.cpp: one client after the other, each until it hangs up.
pub mod Connect
pub mod Run
use unix_ipc.Prelude.{
  ℕ, zero, suc, Bool, true, false, Bytes, ℤ, pos, c_string, bytes_eq, ◌==◌, ◌++◌, replicate,
  le_bytes, if◌then◌else◌,
}
use unix_ipc.Sys.{
  accepts, listens, no_terminator, Prog, pure, or_fault, spent, call, call_, ◌>>=◌, ◌>>◌,
}
use unix_ipc.Engine.Address.{af_inet, sock_stream}
use unix_ipc.Engine.IoOperations.{read_from, write_to, clear_buffer}
use unix_ipc.Engine.NativeSocket.{make_socket, bind_socket, close_socket}
use unix_ipc.Servers.Request.{request_buffer, stop, any_address}

-- `handleConnect(sockfd)` with what `buff` holds, for at most `fuel` reads; it returns
-- `isRunServer`. The exceptions that the calls throw are those of the library.
unfoldable pub handle_connect : ℕ → ℤ → Bytes → Prog Bool
handle_connect zero sockfd buff = spent
handle_connect (suc fuel) sockfd buff = do
  (n, filled) ← read_from sockfd buff 1024
  let rest = (do
    _ ← write_to sockfd filled
    cleared ← clear_buffer filled 1024
    handle_connect fuel sockfd cleared)
  if n == 0 then pure true else (do
    text ← or_fault (c_string filled) no_terminator
    if bytes_eq text stop then pure false else rest)

-- The loop of `main`, for at most `fuel` clients of at most `reads` reads each. What is printed of a connection is left out.
unfoldable pub serve : ℕ → ℕ → ℤ → Prog (Unit {0})
unfolding handle_connect
serve zero reads listenfd = spent
serve (suc fuel) reads listenfd = do
  connection ← call (accepts listenfd)
  is_run_server ← handle_connect reads connection.result request_buffer
  close_socket connection.result
  if is_run_server then serve fuel reads listenfd else pure tt

-- `main`, with `port` the value of `std::stoi(argv[1])`.
unfoldable pub main : ℕ → ℕ → ℕ → Prog ℤ
unfolding serve
main fuel reads port = do
  listenfd ← make_socket af_inet sock_stream
  bind_socket listenfd (any_address port)
  call_ (listens listenfd 10)
  serve fuel reads listenfd
  close_socket listenfd
  pure (pos 0)
