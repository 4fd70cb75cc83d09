-- ===== src/Fifo/EchoServer.antt =====
-- fifo/echo_fifo_server_client/server/server.cpp. The global `connections` is passed along; a
-- function that changes it returns it. Progress messages on the console are left out.
use unix_ipc.Prelude.{
  ℕ, zero, suc, Option, none, some, Bytes, ℤ, pos, negsuc, is_neg, ◌==ℤ◌, to_size, List, [], ◌∷◌,
  ◌++◌, length, replicate, ltb, ◌==◌, if◌then◌else◌, fill, c_string,
}
use unix_ipc.Sys.{
  write_only, read_only, non_block, reads, sleeps, prints, no_arguments, read_failed, no_terminator,
  Prog, pure, throw, or_fault, spent, call, call_, ◌>>=◌, ◌>>◌,
}
use unix_ipc.Fifo.Package.{
  Package, PackageType, message, new_connection, connection_success, connection_close,
  default_package, empty_buffer,
}
use unix_ipc.Fifo.Transfer.{pack, unpack}
use unix_ipc.Fifo.Files.{open_file, create_fifo, close_fifo, close_file, write_to, clear_buffer}

-- `std::cout << buffer.data()`
unfoldable pub show : Bytes → Prog (Unit {0})
show buffer = do text ← or_fault (c_string buffer) no_terminator; call_ (prints text)

-- Besides reading, the server's `ReadFrom` shows what came.
unfoldable pub read_from : ℕ → ℤ → Bytes → Prog Bytes
unfolding show
read_from zero fd buffer = spent
read_from (suc fuel) fd buffer = do
  r ← call (reads fd (length buffer))
  let filled = fill buffer r.bytes
  let again = call_ (sleeps 1) >> read_from fuel fd filled
  if ltb (to_size r.result) 0
      then throw read_failed
      else if to_size r.result == 0
      then again
      else (show filled >> pure filled)

abbrev pub Connections : Type 0
Connections = List ℤ

-- `Connections connections(1024)`: a vector of 1024 zeros.
unfoldable pub initial_connections : Connections
initial_connections = replicate 1024 (pos 0)

-- `std::find`: the element found, if there is one.
unfoldable pub find : Connections → ℤ → Option ℤ
find [] fd = none
find (c ∷ cs) fd = if c ==ℤ fd then some c else find cs fd

-- `connections.erase(std::find(...))`
unfoldable pub erase : Connections → ℤ → Connections
erase [] fd = []
erase (c ∷ cs) fd = if c ==ℤ fd then cs else c ∷ erase cs fd

-- The branches of `Accept` on the type of the package.
unfoldable pub dispatch : PackageType → Package → ℤ → Bytes → Connections → Prog (ℤ × Connections)
dispatch new_connection packet server_fd buffer connections = do
  call_ (prints packet.data_)
  client_fd ← open_file packet.data_ (write_only ∷ non_block ∷ [])
  packed ← pack (record { type_ = connection_success; data_ = []; fd_ = server_fd }) buffer
  write_to client_fd packed
  pure (client_fd, connections ++ client_fd ∷ [])
dispatch message packet server_fd buffer connections = elim (find connections packet.fd_) [
  | some fd ↦ pure (fd, connections)
  | none ↦ pure (negsuc 0, connections)
]
dispatch _ packet server_fd buffer connections = pure (negsuc 0, connections)

unfoldable pub accept : ℕ → ℤ → Connections → Prog (ℤ × Connections)
unfolding dispatch
accept fuel server_fd connections = do
  buffer ← read_from fuel server_fd empty_buffer
  packet ← unpack default_package buffer
  dispatch packet.type_ packet server_fd (clear_buffer buffer) connections

unfoldable pub session_close : ℤ → Connections → Prog Connections
session_close client_fd connections = elim (find connections client_fd) [
  | some fd ↦ close_file client_fd >> pure (erase connections client_fd)
  | none ↦ pure connections
]

unfoldable pub answer : PackageType → Package → ℤ → Bytes → Connections → Prog Connections
answer connection_close packet client_fd buffer connections = session_close client_fd connections
answer _ packet client_fd buffer connections = do
  call_ (prints packet.data_)
  write_to client_fd buffer
  pure connections

unfoldable pub create_new_session : ℕ → ℤ → ℤ → Connections → Prog Connections
unfolding answer
create_new_session fuel client_fd server_fd connections = do
  buffer ← read_from fuel server_fd empty_buffer
  packet ← unpack default_package buffer
  answer packet.type_ packet client_fd buffer connections

-- The loop of `main`; `fuel` bounds its rounds, `tries` the polls of each read.
unfoldable pub serve : ℕ → ℕ → ℤ → Connections → Prog Connections
serve zero tries server_fd connections = spent
serve (suc fuel) tries server_fd connections = do
  (client_fd, accepted) ← accept tries server_fd connections
  let round = (do
    kept ← create_new_session tries client_fd server_fd accepted
    serve fuel tries server_fd kept)
  if is_neg client_fd then pure accepted else round

unfoldable pub run_server : ℕ → ℕ → Bytes → Prog ℤ
run_server fuel tries server_fifo_name = do
  _ ← create_fifo server_fifo_name
  server_fd ← open_file server_fifo_name (read_only ∷ [])
  _ ← serve fuel tries server_fd initial_connections
  close_fifo server_fifo_name
  close_file server_fd
  pure (pos 0)

-- `argc` and `argv[1]`.
unfoldable pub main : ℕ → ℕ → ℕ → Bytes → Prog ℤ
unfolding run_server
main fuel tries argc server_fifo_name =
    if argc == 2 then run_server fuel tries server_fifo_name else throw no_arguments
