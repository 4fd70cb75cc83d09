-- ===== src/Examples.antt =====
-- The programs under socket/examples.
pub mod TcpSender
pub mod SimpleTcpClient
pub mod TcpReceiver
pub mod MultiplexServer
pub mod MultithreadServer
mod Tests
use unix_ipc.Prelude.{Bytes}
use unix_ipc.Sys.{bad_optional_access, Prog, throw}
use unix_ipc.Engine.Address
use unix_ipc.Engine.Address.{Statics}
use unix_ipc.Engine.Socket
use unix_ipc.Engine.Socket.{Socket}

-- `socket.getAddress().value()->getAddressStr()`
unfoldable pub address_text : Socket → Statics → Prog (Bytes × Statics)
address_text socket statics =
    Socket.with_address socket.address_ (throw bad_optional_access)
      λ a. Address.get_address_str a statics
