-- ===== src/Fifo/Package.antt =====
-- `Package` of fifo/echo_fifo_server_client: the message of the protocol and its layout in a
-- buffer of 1024 bytes. The client declares it in the same words as the server. `Type` takes 4
-- bytes, `size_t` 8, both with the lowest byte first (x86-64 Linux).
pub mod RoundTrip
use unix_ipc.Prelude.{
  ℕ, zero, suc, ◌+◌, ◌≡◌, refl, Bool, Option, none, some, Bytes, ℤ, pos, List, [], ◌∷◌, ◌++◌,
  length, replicate, store_at, load_at, c_string, le_bytes, of_le, ◌==◌, if◌then◌else◌,
}

-- `unnamed` is any other value that `memcpy` may put into a variable of the enumeration.
pub data PackageType : Type 0 where
  message new_connection connection_success connection_close : PackageType
  unnamed : ℕ → PackageType

pub record Package : Type 0 where
  pub type_ : PackageType
  pub data_ : Bytes
  pub fd_ : ℤ

-- The default arguments of the constructor.
abbrev pub default_package : Package
default_package = record { type_ = message; data_ = []; fd_ = pos 0 }

-- `Buffer` is an array of this many bytes.
abbrev pub buffer_size : ℕ
buffer_size = 1024

-- `Buffer buffer = {0}`
unfoldable pub empty_buffer : Bytes
empty_buffer = replicate buffer_size 0

unfoldable pub code : PackageType → ℕ
code message = 0
code new_connection = 1
code connection_success = 2
code connection_close = 3
code (unnamed n) = n

unfoldable pub of_code : ℕ → PackageType
of_code n =
    if n == 0
    then message
    else if n == 1
    then new_connection
    else if n == 2
    then connection_success
    else if n == 3
    then connection_close
    else unnamed n

infixl 5 ◌>>=◌
abbrev pub ◌>>=◌ : {A B : Type 0} → Option A → (A → Option B) → Option B
none >>= f = none
some a >>= f = f a

-- `none`: a `memcpy` writes past the end of the buffer.
unfoldable pub serialize : Package → Bytes → Option Bytes
unfolding code
serialize p buffer = do
  typed ← store_at buffer 0 (le_bytes 4 (code p.type_))
  sized ← store_at typed 4 (le_bytes 8 (length p.data_))
  store_at sized 12 p.data_

-- `heap` is the memory behind the block that `new char[size]` gives: `std::string(data)` reads on
-- to the first NUL. `none`: a `memcpy` reads past the end of the buffer, or no NUL is found.
unfoldable pub deserialize : Bytes → Package → Bytes → Option Package
unfolding of_code
deserialize heap p buffer = do
  type_bytes ← load_at buffer 0 4
  size_bytes ← load_at buffer 4 8
  block ← load_at buffer 12 (of_le size_bytes)
  text ← c_string (block ++ heap)
  some (record p { type_ = of_code (of_le type_bytes); data_ = text })
