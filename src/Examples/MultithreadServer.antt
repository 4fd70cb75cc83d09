-- ===== src/Examples/MultithreadServer.antt =====
-- socket/examples/multithread_server/main.cpp: the listening socket and the acceptor. (Its handler
-- is in Engine/Tcp/Multithread/Echo.antt.) Whatever `argc` is, `main` goes on.
use unix_ipc.Prelude.{ℕ, none}
use unix_ipc.Sys.{prints, Prog, pure, call_, ◌>>=◌, ◌>>◌}
use unix_ipc.Engine.Address.{of_ip, initial_statics}
use unix_ipc.Engine.Socket
use unix_ipc.Engine.Socket.{listener}
use unix_ipc.Engine.Tcp.Listener.{of_socket, get_socket}
use unix_ipc.Engine.Tcp.Multithread.{Acceptor, make}
use unix_ipc.Engine.Tcp.Multithread.Echo.{echo}
use unix_ipc.Examples.{address_text}

-- `main` up to `pollingLoop`, with `port` the value of `std::atoi(argv[1])` in a `short`.
unfoldable pub start : ℕ → Prog (Acceptor echo)
start port = do
  address ← of_ip none port
  socket ← Socket.make address listener
  tcp_listener ← of_socket socket 10
  (text, statics) ← address_text (get_socket tcp_listener) initial_statics
  call_ (prints text)
  pure (make echo statics tcp_listener)
