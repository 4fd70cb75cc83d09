-- ===== src/Engine/Address.antt =====
-- socket/external/engine/net_api/address_family: `SocketAddressIpv4`, the only address there is.
-- A `sockaddr_in` is its 16 bytes: the family (2, lowest first), the port (2, highest first), the
-- address (4) and padding (8). The C library's conversions of addresses are calls of the system.
pub mod Layout
use unix_ipc.Prelude.{
  ℕ, ◌+◌, ◌/◌, ◌%◌, ◌^◌, Bool, true, false, Option, none, some, Bytes, ℤ, pos, ◌==ℤ◌, is_neg, [],
  ◌∷◌, length, take, replicate, store_at, fill, le_bytes, c_string, if◌then◌else◌,
}
use unix_ipc.Sys.{
  parses_address, formats_address, out_of_bounds, no_terminator, Prog, Reply, pure, or_fault, call,
  ◌>>=◌,
}

-- `AF_INET`, `SOCK_STREAM` and `SOCK_DGRAM` of Linux.
abbrev pub af_inet : ℕ
af_inet = 2

abbrev pub sock_stream : ℕ
sock_stream = 1

abbrev pub sock_dgram : ℕ
sock_dgram = 2

-- The bytes of `htons(port)`, for the 16 bits of a `short`.
abbrev pub htons_bytes : ℕ → Bytes
htons_bytes port = (port / 256 % 256) ∷ (port % 256) ∷ []

-- `INADDR_ANY`
abbrev pub inaddr_any : Bytes
inaddr_any = 0 ∷ 0 ∷ 0 ∷ 0 ∷ []

pub record SocketAddress : Type 0 where
  pub ip_address : Option Bytes
  pub port : ℕ
  pub socket_address : Bytes

unfoldable pub get_family : SocketAddress → ℕ
get_family a = af_inet

unfoldable pub get_type : SocketAddress → ℕ
get_type a = sock_stream

unfoldable pub get_address : SocketAddress → Bytes
get_address a = a.socket_address

unfoldable pub get_address_len : SocketAddress → ℕ
get_address_len a = 16

-- `inet_pton(AF_INET, text, dst)`: on the result 1 it puts the address into the first four bytes
-- of what `dst` points at, and else nothing.
unfoldable pub inet_pton : Bytes → Bytes → Prog (ℤ × Bytes)
inet_pton text dst = do
  r ← call (parses_address text)
  stored ← or_fault (store_at dst 0 (take 4 r.bytes)) out_of_bounds
  pure (r.result, if r.result ==ℤ pos 1 then stored else dst)

-- `fellAddress`: with a text the source hands `inet_pton` the whole structure.
unfoldable pub fell_address : SocketAddress → Prog SocketAddress
unfolding inet_pton get_family
fell_address a = do
  family ← or_fault (store_at a.socket_address 0 (le_bytes 2 (get_family a))) out_of_bounds
  ported ← or_fault (store_at family 2 (htons_bytes a.port)) out_of_bounds
  elim a.ip_address [
    | some text ↦ (do
      (res, parsed) ← inet_pton text ported
      pure (record a { socket_address = parsed }))
    | none ↦ (do
      any ← or_fault (store_at ported 4 inaddr_any) out_of_bounds
      pure (record a { socket_address = any }))
  ]

-- The two constructors.
unfoldable pub of_sockaddr : Bytes → ℕ → SocketAddress
of_sockaddr socket_address port = record {
  ip_address = none;
  port = port;
  socket_address = socket_address;
}

unfoldable pub of_ip : Option Bytes → ℕ → Prog SocketAddress
unfolding fell_address
of_ip ip port =
    fell_address (record { ip_address = ip; port = port; socket_address = replicate 16 0 })

unfoldable pub copy : SocketAddress → SocketAddress
unfolding of_sockaddr
copy a = of_sockaddr a.socket_address a.port

-- The two static variables of `getAddressStr`, which all addresses share.
pub record Statics : Type 0 where
  pub address_buff : Bytes
  pub is_eval : Bool

unfoldable pub initial_statics : Statics
initial_statics = record { address_buff = replicate 16 0; is_eval = false }

-- `inet_ntop` is handed the whole structure, and reads its first four bytes.
unfoldable pub evaluate : SocketAddress → Statics → Prog Statics
evaluate a s = do
  r ← call (formats_address (take 4 a.socket_address))
  pure (record { address_buff = fill s.address_buff r.bytes; is_eval = true })

-- `std::string_view(addressBuff.data())`
unfoldable pub view : Statics → Prog (Bytes × Statics)
view s = do text ← or_fault (c_string s.address_buff) no_terminator; pure (text, s)

unfoldable pub get_address_str : SocketAddress → Statics → Prog (Bytes × Statics)
unfolding evaluate view
get_address_str a s = do s' ← (if s.is_eval then pure s else evaluate a s); view s'
