-- ===== src/Engine/Tcp.antt =====
-- socket/external/engine/net_api: what is built on sockets.
pub mod Listener
pub mod Sender
pub mod Multiplex
pub mod Receiver
pub mod Multithread
mod Tests
