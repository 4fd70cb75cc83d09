-- ===== src/Clients.antt =====
-- The clients under socket/clients.
pub mod TcpClient
pub mod UdpClient
mod Tests
