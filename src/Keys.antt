-- ===== src/Keys.antt =====
-- src/keys.rs: key pairs and session keys.
pub mod Crypto
pub mod Keypair
pub mod Session
pub mod RoundTrip
pub mod Agreement
