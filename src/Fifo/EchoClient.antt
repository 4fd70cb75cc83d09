-- ===== src/Fifo/EchoClient.antt =====
-- `main` of fifo/echo_fifo_server_client/client/client.cpp.
use unix_ipc.Prelude.{ℕ, Bool, true, false, Bytes, ℤ, pos, negsuc, [], ◌∷◌, ◌==◌, if◌then◌else◌}
use unix_ipc.Sys.{
  write_only, read_only, non_block, prints, no_arguments, Prog, pure, throw, call_, ◌>>=◌, ◌>>◌,
}
use unix_ipc.Fifo.Package.{
  Package, PackageType, message, new_connection, connection_success, connection_close,
  default_package, empty_buffer,
}
use unix_ipc.Fifo.Transfer.{pack, unpack}
use unix_ipc.Fifo.Files.{
  open_file, create_fifo, close_fifo, close_file, read_from, write_to, clear_buffer,
}

abbrev pub is_success : PackageType → Bool
is_success connection_success = true
is_success _ = false

-- "Hello world from client!"
abbrev pub greeting : Bytes
greeting =
    72 ∷ 101 ∷ 108 ∷ 108 ∷ 111 ∷ 32 ∷ 119 ∷ 111 ∷ 114 ∷ 108 ∷ 100 ∷ 32 ∷ 102 ∷ 114 ∷ 111 ∷ 109 ∷ 32
    ∷ 99 ∷ 108 ∷ 105 ∷ 101 ∷ 110 ∷ 116 ∷ 33 ∷ []

abbrev pub request : ℤ → PackageType → Bytes → Package
request fd type text = record { type_ = type; data_ = text; fd_ = fd }

-- From the test of the connection's status to the end.
unfoldable pub talk : ℕ → Bytes → ℤ → ℤ → Package → Bytes → Prog ℤ
talk tries client_fifo_name client_fd server_fd status buffer =
    if is_success status.type_
    then (do
      hello ← pack (request client_fd message greeting) buffer
      write_to server_fd hello
      echo ← read_from tries client_fd (clear_buffer hello)
      response ← unpack default_package echo
      call_ (prints response.data_)
      farewell ← pack (request client_fd connection_close []) (clear_buffer echo)
      write_to server_fd farewell
      close_fifo client_fifo_name
      close_file server_fd
      close_file client_fd
      pure (pos 0))
    else pure (negsuc 0)

unfoldable pub run_client : ℕ → Bytes → Bytes → Prog ℤ
unfolding talk
run_client tries server_fifo_name client_fifo_name = do
  _ ← create_fifo client_fifo_name
  client_fd ← open_file client_fifo_name (read_only ∷ non_block ∷ [])
  server_fd ← open_file server_fifo_name (write_only ∷ [])
  buffer ← pack (request client_fd new_connection client_fifo_name) empty_buffer
  write_to server_fd buffer
  reply ← read_from tries client_fd (clear_buffer buffer)
  status ← unpack default_package reply
  talk tries client_fifo_name client_fd server_fd status (clear_buffer reply)

-- `argc`, `argv[1]` and `argv[2]`.
unfoldable pub main : ℕ → ℕ → Bytes → Bytes → Prog ℤ
unfolding run_client
main tries argc server_fifo_name client_fifo_name =
    if argc == 3 then run_client tries server_fifo_name client_fifo_name else throw no_arguments
