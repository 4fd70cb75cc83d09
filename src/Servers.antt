-- ===== src/Servers.antt =====
-- The servers under socket/servers.
pub mod Request
pub mod Descriptors
pub mod Select
pub mod Poll
pub mod SimpleTcp
pub mod SimpleUdp
pub mod Once
pub mod Service
mod Tests
