-- ===== src/Fifo.antt =====
-- The programs under fifo/: named pipes between a server and its clients.
pub mod Package
pub mod Files
pub mod Transfer
pub mod EchoServer
pub mod EchoClient
pub mod Session
pub mod Connections
pub mod Simple
mod Tests
