-- ===== src/Engine/Tcp/Listener.antt =====
-- socket/external/engine/net_api/tcp_listener/tcp_listener.cpp.
use unix_ipc.Prelude.{ℕ, ◌≡◌, ℤ, is_neg, List, ◌∷◌, arith, if◌then◌else◌}
use unix_ipc.Sys.{
  Call, Os, ok, throws, binds, listens, bind_failed, listen_failed, listen_on_usual, Prog, pure,
  ◌>>=◌, ◌>>◌,
}
use unix_ipc.Engine.Address.{SocketAddress, get_address}
use unix_ipc.Engine.NativeSocket.{bind_socket, make_listen_queue}
use unix_ipc.Engine.Socket
use unix_ipc.Engine.Socket.{Socket, SocketType, listener, usual, holds}

pub record TcpListener : Type 0 where
  pub socket_ : Socket

unfoldable pub init_socket : Socket → ℕ → Prog (Unit {0})
init_socket s listen_queue_size = Socket.bind s >> Socket.make_listening_queue s listen_queue_size

-- The two constructors.
unfoldable pub of_address : SocketAddress → ℕ → Prog TcpListener
unfolding init_socket
of_address address listen_queue_size = do
  s ← Socket.make address listener
  init_socket s listen_queue_size
  pure (record { socket_ = s })

unfoldable pub of_socket : Socket → ℕ → Prog TcpListener
unfolding init_socket
of_socket listener_socket listen_queue_size = do
  let s = (Socket.move listener_socket).0
  init_socket s listen_queue_size
  pure (record { socket_ = s })

unfoldable pub get_socket : TcpListener → Socket
get_socket l = Socket.copy l.socket_

-- A listener is bound before it listens, and does not listen where binding failed; a socket of the
-- usual kind is bound and only then refused.
pub init_socket_lem :
    (fd : ℤ) (type : SocketType) (a : SocketAddress) (n : ℕ) (os : Os) (h : List Call)
    → let s : Socket = record { socket_ = fd; type_ = type; address_ = holds a } in
      let bound = binds fd (get_address a) ∷ h in
      init_socket s n os h ≡ (
        if is_neg (os h (binds fd (get_address a))).result
        then (throws bind_failed, bound)
        else elim type [
          | usual ↦ (throws listen_on_usual, bound)
          | listener ↦ (
            (if is_neg (os bound (listens fd n)).result then throws listen_failed else ok tt),
            listens fd n ∷ bound,
          )
        ])
unfolding init_socket Socket.bind Socket.make_listening_queue bind_socket make_listen_queue
init_socket_lem fd usual a n os h = ground arith
init_socket_lem fd listener a n os h = ground arith
