-- ===== src/Server.antt =====
-- src/server.rs and the start of sessions in src/session.rs.
pub mod State
pub mod Incoming
pub mod Outside
pub mod Refusing
pub mod Joining
pub mod Connecting
pub mod Invariant
pub mod Answering
pub mod Start
pub mod Starting
