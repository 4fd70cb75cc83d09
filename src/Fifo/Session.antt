-- ===== src/Fifo/Session.antt =====
-- One session of the echo protocol, as the calls that each side makes and the replies that it
-- gets.
pub mod Script
pub mod Client
pub mod Many
pub mod Server
pub mod Joint
