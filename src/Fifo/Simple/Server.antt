-- ===== src/Fifo/Simple/Server.antt =====
-- `main` of fifo/simple_fifo_server_client/server.cpp.
use unix_ipc.Prelude.{ℕ, Bytes, ℤ, pos, [], ◌∷◌, ◌==◌, if◌then◌else◌, c_string}
use unix_ipc.Sys.{
  read_only, write_only, non_block, no_arguments, no_terminator, Prog, pure, throw, or_fault, ◌>>=◌,
  ◌>>◌,
}
use unix_ipc.Fifo.Package.{empty_buffer}
use unix_ipc.Fifo.Files.{open_file, create_fifo, close_fifo, close_file, read_from, write_to}
use unix_ipc.Fifo.Simple.{padded, hello}

-- The server's `CreateFifo` opens the pipe that it makes.
unfoldable pub create_and_open : Bytes → Prog ℤ
create_and_open name = do _ ← create_fifo name; open_file name (non_block ∷ read_only ∷ [])

unfoldable pub run : ℕ → Bytes → Prog ℤ
unfolding create_and_open
run tries server_name = do
  rfd ← create_and_open server_name
  buff ← read_from tries rfd empty_buffer
  fifo_name ← or_fault (c_string buff) no_terminator
  wfd ← open_file fifo_name (non_block ∷ write_only ∷ [])
  msg ← padded hello
  write_to wfd msg
  close_fifo server_name
  close_file rfd
  close_file wfd
  pure (pos 0)

unfoldable pub main : ℕ → ℕ → Bytes → Prog ℤ
unfolding run
main tries argc server_name = if argc == 2 then run tries server_name else throw no_arguments
