-- ===== src/Fifo/Simple/Client.antt =====
-- `main` of fifo/simple_fifo_server_client/client.cpp.
use unix_ipc.Prelude.{ℕ, Bytes, ℤ, pos, [], ◌∷◌, ◌==◌, if◌then◌else◌, c_string}
use unix_ipc.Sys.{
  read_only, write_only, non_block, prints, no_arguments, no_terminator, Prog, pure, throw,
  or_fault, call_, ◌>>=◌, ◌>>◌,
}
use unix_ipc.Fifo.Package.{empty_buffer}
use unix_ipc.Fifo.Files.{open_file, create_fifo, close_fifo, close_file, read_from, write_to}
use unix_ipc.Fifo.Simple.{padded}

unfoldable pub run : ℕ → Bytes → Bytes → Prog ℤ
run tries server_name client_name = do
  wfd ← open_file server_name (non_block ∷ write_only ∷ [])
  _ ← create_fifo client_name
  buff ← padded client_name
  write_to wfd buff
  rfd ← open_file client_name (non_block ∷ read_only ∷ [])
  msg ← read_from tries rfd empty_buffer
  text ← or_fault (c_string msg) no_terminator
  call_ (prints text)
  close_fifo client_name
  close_file rfd
  close_file wfd
  pure (pos 0)

unfoldable pub main : ℕ → ℕ → Bytes → Bytes → Prog ℤ
unfolding run
main tries argc server_name client_name =
    if argc == 3 then run tries server_name client_name else throw no_arguments
