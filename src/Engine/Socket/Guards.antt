-- ===== src/Engine/Socket/Guards.antt =====
-- Which operations a socket refuses, and what its reads and writes report.
use unix_ipc.Prelude.{
  ℕ, ◌≡◌, false, some, Bytes, is_neg, to_size, List, ◌∷◌, arith, take, load_at, store_at,
}
use unix_ipc.Sys.{Call, Os, ok, throws, reads, writes, accepts, accept_on_usual, listen_on_usual}
use unix_ipc.Engine.Buffer.{Buffer}
use unix_ipc.Engine.Outcomes.{of_value}
use unix_ipc.Engine.NativeSocket
use unix_ipc.Engine.IoOperations
use unix_ipc.Engine.Socket
use unix_ipc.Engine.Socket.{Socket, usual, listener, SocketState, IoResult}

-- An accepted socket has the descriptor that `accept` gave, which is not negative, and refuses to
-- listen and to accept before any call.
pub accepted_refuses :
    (l s : Socket) (n : ℕ) (os : Os) (h g : List Call)
    → Socket.accept l os h ≡ (ok s, g)
    → (Socket.accept s os g ≡ (throws accept_on_usual, g))
      × (Socket.make_listening_queue s n os g ≡ (throws listen_on_usual, g))
      × (s.socket_ ≡ (os h (accepts l.socket_)).result)
      × (is_neg s.socket_ ≡ false)
unfolding Socket.accept Socket.make_listening_queue NativeSocket.accept Socket.of_fd
accepted_refuses l s n os h g e = (ground arith, ground arith, ground arith, ground arith)

-- Whatever the system answers, `read` and `write` return a value and never a `SocketState`: the
-- number that the result is as a `size_t`, so 2 ^ 64 - 1 for a failure.
pub io_results :
    (s : Socket) (b : Buffer) (size : ℕ) (os : Os) (h : List Call) (bytes filled : Bytes)
    → load_at b.array 0 size ≡ some bytes
    → store_at b.array 0 (take size (os h (reads s.socket_ size)).bytes) ≡ some filled
    → (Socket.write s b size os h ≡ (
      ok (of_value (to_size (os h (writes s.socket_ bytes)).result)),
      writes s.socket_ bytes ∷ h,
    ))
      × (Socket.read s b size os h ≡ (
        ok (of_value (to_size (os h (reads s.socket_ size)).result), record b { array = filled }),
        reads s.socket_ size ∷ h,
      ))
unfolding Socket.write Socket.read IoOperations.write_to IoOperations.read_from
io_results s b size os h bytes filled l r = (rw l (ground arith), rw r (ground arith))
