-- ===== src/Engine/NativeSocket.antt =====
-- socket/external/engine/net_api/socket/native_socket_api.cpp: each system call, its failure as
-- an exception.
use unix_ipc.Prelude.{ℕ, Bytes, ℤ, is_neg, if◌then◌else◌}
use unix_ipc.Sys.{
  makes_socket, binds, connects, listens, accepts, closes, make_socket_failed, bind_failed,
  connect_failed, listen_failed, accept_failed, close_failed, Prog, pure, throw, skip, call,
  result_of, ◌>>=◌,
}

unfoldable pub make_socket : ℕ → ℕ → Prog ℤ
make_socket family type = do
  socketfd ← result_of (makes_socket family type)
  if is_neg socketfd then throw make_socket_failed else pure socketfd

unfoldable pub bind_socket : ℤ → Bytes → Prog (Unit {0})
bind_socket socket address = do
  result ← result_of (binds socket address)
  if is_neg result then throw bind_failed else skip

unfoldable pub connect : ℤ → Bytes → Prog (Unit {0})
connect socket address = do
  result ← result_of (connects socket address)
  if is_neg result then throw connect_failed else skip

unfoldable pub make_listen_queue : ℤ → ℕ → Prog (Unit {0})
make_listen_queue socket queue_size = do
  result ← result_of (listens socket queue_size)
  if is_neg result then throw listen_failed else skip

-- The reply's bytes are what the call puts into `clientAddress`.
unfoldable pub accept : ℤ → Prog (ℤ × Bytes)
accept socket = do
  r ← call (accepts socket)
  if is_neg r.result then throw accept_failed else pure (r.result, r.bytes)

unfoldable pub close_socket : ℤ → Prog (Unit {0})
close_socket socket = do
  result ← result_of (closes socket)
  if is_neg result then throw close_failed else skip
