-- ===== src/Engine/Tcp/Sender.antt =====
-- socket/external/engine/net_api/sender/tcp_sender.cpp.
use unix_ipc.Prelude.{ℕ, ◌≡◌, Bytes, [], to_size, List, ◌∷◌, arith, load_at, some}
use unix_ipc.Sys.{Call, Os, ok, writes, Prog, pure, ◌>>◌}
use unix_ipc.Engine.Buffer.{Buffer, static_buffer}
use unix_ipc.Engine.Buffer.Size.{Reach, static_shape}
use unix_ipc.Engine.Outcomes.{of_value}
use unix_ipc.Engine.IoOperations.{write_to}
use unix_ipc.Engine.Socket
use unix_ipc.Engine.Socket.{Socket, IoResult}

pub record TcpSender : Type 0 where
  pub socket_ : Socket

-- The constructor connects.
unfoldable pub of_socket : Socket → Prog TcpSender
of_socket socket = do
  let s = (Socket.move socket).0
  Socket.connect s
  pure (record { socket_ = s })

unfoldable pub send : TcpSender → Buffer → Prog IoResult
send s buffer = Socket.write s.socket_ buffer buffer.size_

load_none : (a : Bytes) (n : ℕ) → n ≡ 0 → load_at a 0 n ≡ some []
unfolding load_at
load_none a n e = rw e (ground arith)

-- Whatever was written to a static buffer, `send` passes none of it to the socket.
pub send_nothing :
    (n : ℕ) {b : Buffer} (s : TcpSender) (os : Os) (h : List Call)
    → Reach (static_buffer n) b
    → send s b os h ≡ (
      ok (of_value (to_size (os h (writes s.socket_.socket_ [])).result)),
      writes s.socket_.socket_ [] ∷ h,
    )
unfolding send Socket.write write_to
send_nothing n {b} s os h r = rw (load_none b.array b.size_ (static_shape n r).0) (ground arith)
