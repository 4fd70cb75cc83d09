-- ===== src/Fifo/Simple.antt =====
-- fifo/simple_fifo_server_client: one client tells the server the name of its own pipe, and gets
-- one greeting through it. The file functions are those of `Files`.
pub mod Server
pub mod Client
pub mod Greeting
use unix_ipc.Prelude.{Bytes, [], ◌∷◌}
use unix_ipc.Sys.{Prog}
use unix_ipc.Fifo.Package.{empty_buffer}
use unix_ipc.Fifo.Files.{copy_to_buffer}

-- "Hello from server!"
abbrev pub hello : Bytes
hello =
    72 ∷ 101 ∷ 108 ∷ 108 ∷ 111 ∷ 32 ∷ 102 ∷ 114 ∷ 111 ∷ 109 ∷ 32 ∷ 115 ∷ 101 ∷ 114 ∷ 118 ∷ 101 ∷ 114
    ∷ 33 ∷ []

-- `Buffer msg = {"..."}` and `memcpy(buff.data(), ...)`: the text, then zeros.
unfoldable pub padded : Bytes → Prog Bytes
padded text = copy_to_buffer text empty_buffer
