-- ===== src/Session.antt =====
-- src/session.rs, in the order of a session's life.
pub mod State
pub mod Core
pub mod Outside
pub mod Endpoint
pub mod Run
pub mod Steps
pub mod Delivery
pub mod Closing
pub mod Invariant
pub mod Stable
pub mod Failing
pub mod Opening
pub mod Upgrading
pub mod Sending
