-- ===== src/Engine/Socket/Ownership.antt =====
-- Who closes a descriptor: sockets that were moved, and sockets that were copied.
use unix_ipc.Prelude.{◌≡◌, refl, true, false, is_neg, List, ◌∷◌, arith, if◌then◌else◌, is_pos}
use unix_ipc.Sys.{Call, Os, ok, closes, throws, close_failed, ◌>>◌}
use unix_ipc.Engine.NativeSocket.{close_socket}
use unix_ipc.Engine.Socket
use unix_ipc.Engine.Socket.{Socket}

-- A move hands on descriptor, type and address, and closing what is left makes no call.
pub close-move :
    (s : Socket) (os : Os) (h : List Call)
    → ((Socket.move s).0 ≡ s) × (Socket.close (Socket.move s).1 os h ≡ (ok tt, h))
unfolding Socket.move Socket.close
close-move s os h = (refl, refl)

-- Closing a socket with a positive descriptor and then a copy of it closes the descriptor twice,
-- and fails where the second `close` does.
pub close-copy :
    (s : Socket) (os : Os) (h : List Call)
    → is_pos s.socket_ ≡ true
    → is_neg (os h (closes s.socket_)).result ≡ false
    → (Socket.close s >> Socket.close (Socket.copy s)) os h ≡ (
      (if is_neg (os (closes s.socket_ ∷ h) (closes s.socket_)).result
          then throws close_failed
          else ok tt),
      closes s.socket_ ∷ closes s.socket_ ∷ h,
    )
unfolding Socket.close Socket.copy close_socket
close-copy s os h p n = ground arith

-- `close` makes one call for a positive descriptor, and none for 0 or a moved one.
pub close_calls :
    (s : Socket) (os : Os) (h : List Call)
    → (Socket.close s os h).1 ≡ (if is_pos s.socket_ then closes s.socket_ ∷ h else h)
unfolding Socket.close close_socket
close_calls s os h = ground arith
