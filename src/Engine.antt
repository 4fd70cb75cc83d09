-- ===== src/Engine.antt =====
-- The library under socket/external/engine.
pub mod Buffer
pub mod IoOperations
pub mod Outcomes
pub mod NativeSocket
pub mod Address
pub mod Socket
pub mod Tcp
pub mod ScopeGuard
mod Tests
