-- ===== src/Examples/MultiplexServer.antt =====
-- socket/examples/multiplex_server/main.cpp: what a client sends goes back in a full buffer. The
-- data of the handler are the static variables of `getAddressStr`.
pub mod Started
use unix_ipc.Prelude.{
  ℕ, ltb, ◌%◌, ◌+◌, Bool, true, Bytes, ℤ, pos, none, List, ◌++◌, c_string, ◌==◌, if◌then◌else◌,
}
use unix_ipc.Sys.{
  prints, no_arguments, no_terminator, Prog, pure, throw, or_fault, call_, ◌>>=◌, ◌>>◌,
}
use unix_ipc.Engine.Address.{Statics, of_ip, initial_statics}
use unix_ipc.Engine.Buffer.{static_buffer}
use unix_ipc.Engine.Socket
use unix_ipc.Engine.Socket.{Socket}
use unix_ipc.Engine.Tcp.Listener.{of_address, get_socket}
use unix_ipc.Engine.Tcp.Multiplex.{World, construct, move_construct, polling_loop}
use unix_ipc.Examples.{address_text}

-- `handler`
unfoldable pub handle : Socket → Statics → Prog (Bool × Statics)
handle socket statics = do
  (_, buffer) ← Socket.read socket (static_buffer 1024) 1024
  text ← or_fault (c_string buffer.array) no_terminator
  call_ (prints text)
  (address, statics') ← Socket.address_str socket statics
  call_ (prints address)
  _ ← Socket.write socket buffer 1024
  pure (true, statics')

-- The `short` port, where it becomes the `size_t` length of the queue: its 16 bits, with the sign
-- extended to 64.
abbrev pub queue_size : ℕ → ℕ
queue_size port =
    let bits = port % 65536 in if ltb bits 32768 then bits else bits + 18446744073709486080

-- `MakeTcpMultiplexAcceptor(address, port)`: acceptor 0 is the function's own, and the result,
-- acceptor 1, is made of it by a move. The port is also the length of the queue.
unfoldable pub make_acceptor : ℕ → Prog (World Statics)
make_acceptor port = do
  address ← of_ip none port
  listener ← of_address address (queue_size port)
  (text, statics) ← address_text (get_socket listener) initial_statics
  call_ (prints text)
  store ← move_construct (λ a. construct a listener) 1 0
  pure (record { store = store; client = statics })

-- `main`, with `port` the value of `std::stoi(argv[1])`, for `rounds` polls with at most `fuel`
-- sessions each.
unfoldable pub main : ℕ → ℕ → ℕ → ℕ → Prog (World Statics)
unfolding handle make_acceptor
main rounds fuel argc port =
    if argc == 2
    then (do w ← make_acceptor port; polling_loop handle rounds fuel 1 w)
    else throw no_arguments
