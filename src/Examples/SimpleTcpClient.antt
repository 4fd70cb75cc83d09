-- ===== src/Examples/SimpleTcpClient.antt =====
-- socket/examples/simple_tcp_client/main.cpp: one word of the input is sent, and the answer shown.
use unix_ipc.Prelude.{ℕ, Bytes, ℤ, pos, some, length, c_string, ◌==◌, if◌then◌else◌}
use unix_ipc.Sys.{
  reads_word, prints, no_arguments, no_terminator, Prog, pure, throw, or_fault, call, call_, ◌>>=◌,
  ◌>>◌,
}
use unix_ipc.Engine.Address.{of_ip}
use unix_ipc.Engine.Buffer
use unix_ipc.Engine.Buffer.{Buffer, static_buffer}
use unix_ipc.Engine.Socket
use unix_ipc.Engine.Socket.{Socket, usual}

-- What follows the connection: the word, and the answer.
unfoldable pub talk : Socket → Prog (Unit {0})
talk socket = do
  r ← call reads_word
  buffer ← Buffer.write (static_buffer 1024) r.bytes (length r.bytes)
  _ ← Socket.write socket buffer buffer.size_
  cleared ← Buffer.clear buffer
  (_, answer) ← Socket.read socket cleared cleared.capacity_
  text ← or_fault (c_string answer.array) no_terminator
  call_ (prints text)

-- `main`, with `port` the value of `std::stoi(argv[2])` in a `short`.
unfoldable pub main : ℕ → Bytes → ℕ → Prog ℤ
unfolding talk
main argc ip port =
    if argc == 3
    then (do
      address ← of_ip (some ip) port
      socket ← Socket.make address usual
      Socket.connect socket
      talk socket
      pure (pos 0))
    else throw no_arguments
