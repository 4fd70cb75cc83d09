-- ===== src/Engine/Socket.antt =====
-- socket/external/engine/net_api/socket/socket.cpp. A socket is a value; an operation that
-- changes it returns it. Nothing changes an address once it is made, so the shared pointer to it
-- is the address.
pub mod Ownership
pub mod Guards
use unix_ipc.Prelude.{
  ℕ, Bool, true, false, not, ◌&&◌, Option, none, some, Bytes, ℤ, pos, negsuc, is_pos, load_at, fill,
  replicate, [], ◌==◌, if◌then◌else◌,
}
use unix_ipc.Sys.{
  accept_on_usual, bad_optional_access, bind_without_address, connect_without_address,
  connect_not_tcp, listen_on_usual, null_pointer, out_of_bounds, Prog, pure, throw, fault, or_fault,
  skip, ◌>>=◌, ◌>>◌,
}
use unix_ipc.Engine.Buffer.{Buffer}
use unix_ipc.Engine.Outcomes.{Result, of_value}
use unix_ipc.Engine.IoOperations
use unix_ipc.Engine.NativeSocket
use unix_ipc.Engine.Address
use unix_ipc.Engine.Address.{SocketAddress, Statics, af_inet, sock_stream}

pub data SocketState : Type 0 where
  closed opened undefined_error : SocketState

pub data SocketType : Type 0 where
  listener usual : SocketType

-- `std::optional<Address>`: a move leaves the optional engaged, with a null pointer in it.
pub data Held : Type 0 where
  absent null : Held
  holds : SocketAddress → Held

pub record Socket : Type 0 where
  pub socket_ : ℤ
  pub type_ : SocketType
  pub address_ : Held

abbrev pub IoResult : Type 0
IoResult = Result ℕ SocketState

-- `address_.value()->...`, which throws where there is no value and has no meaning at null.
abbrev pub with_address : {B : Type 0} → Held → Prog B → (SocketAddress → Prog B) → Prog B
with_address absent missing f = missing
with_address null missing f = fault null_pointer
with_address (holds a) missing f = f a

-- `init`, without its result, which is always `true`.
abbrev pub init : Socket → Prog Socket
init s = with_address s.address_ (throw bad_optional_access) λ a. do
  fd ← NativeSocket.make_socket (Address.get_family a) (Address.get_type a)
  pure (record s { socket_ = fd })

-- `Socket(Address &&, Type)`
unfoldable pub make : SocketAddress → SocketType → Prog Socket
make address type = init (record { socket_ = pos 0; type_ = type; address_ = holds address })

-- `Socket(int, const Address &, Type)`
unfoldable pub of_fd : ℤ → SocketAddress → SocketType → Socket
of_fd fd address type = record { socket_ = fd; type_ = type; address_ = holds address }

-- The copy constructor.
unfoldable pub copy : Socket → Socket
copy other = record { socket_ = other.socket_; type_ = other.type_; address_ = other.address_ }

abbrev pub moved : Held → Held
moved absent = absent
moved null = null
moved (holds a) = null

-- The move constructor: the new socket, and what is left of `other`.
unfoldable pub move : Socket → Socket × Socket
move other = (
  record { socket_ = other.socket_; type_ = other.type_; address_ = other.address_ },
  record other { socket_ = negsuc 0; address_ = moved other.address_ },
)

-- The copy assignment, and the move assignment with what is left of `other`.
abbrev pub assign : Socket → Socket → Socket
assign s other = record s {
  socket_ = other.socket_;
  type_ = other.type_;
  address_ = other.address_;
}

abbrev pub move_assign : Socket → Socket → Socket × Socket
move_assign s other = (
  record s { socket_ = other.socket_; type_ = other.type_; address_ = other.address_ },
  record other { socket_ = negsuc 0; address_ = moved other.address_ },
)

abbrev pub fd : Socket → ℤ
fd s = s.socket_

abbrev pub get_address : Socket → Held
get_address s = s.address_

unfoldable pub bind : Socket → Prog (Unit {0})
bind s =
    with_address s.address_ (throw bind_without_address)
      λ a. NativeSocket.bind_socket s.socket_ (Address.get_address a)

unfoldable pub connect : Socket → Prog (Unit {0})
connect s = with_address s.address_ (throw connect_without_address) λ a.
    if not (Address.get_family a == af_inet) && not (Address.get_type a == sock_stream)
    then throw connect_not_tcp
    else NativeSocket.connect s.socket_ (Address.get_address a)

unfoldable pub make_listening_queue : Socket → ℕ → Prog (Unit {0})
make_listening_queue s queue_size = elim s.type_ [
  | usual ↦ throw listen_on_usual
  | listener ↦ NativeSocket.make_listen_queue s.socket_ queue_size
]

-- What `read` gives, with the buffer afterwards.
unfoldable pub read : Socket → Buffer → ℕ → Prog (IoResult × Buffer)
read s buffer size = do
  (n, filled) ← IoOperations.read_from s.socket_ buffer.array size
  pure (of_value n, record buffer { array = filled })

unfoldable pub write : Socket → Buffer → ℕ → Prog IoResult
write s buffer size = do
  bytes ← or_fault (load_at buffer.array 0 size) out_of_bounds
  n ← IoOperations.write_to s.socket_ bytes
  pure (of_value n)

unfoldable pub accept : Socket → Prog Socket
accept s = elim s.type_ [
  | usual ↦ throw accept_on_usual
  | listener ↦ (do
    (client_fd, address) ← NativeSocket.accept s.socket_
    pure (of_fd client_fd (Address.of_sockaddr (fill (replicate 16 0) address) 0) usual))
]

unfoldable pub address_str : Socket → Statics → Prog (Bytes × Statics)
address_str s statics =
    with_address s.address_ (pure ([], statics)) λ a. Address.get_address_str a statics

unfoldable pub close : Socket → Prog (Unit {0})
close s = if is_pos s.socket_ then NativeSocket.close_socket s.socket_ else skip
