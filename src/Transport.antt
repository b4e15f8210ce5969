-- ===== src/Transport.antt =====
-- src/transports: what a connection carries, and what is made of it.
pub mod Stream
pub mod Tcp
pub mod Framing
pub mod Ending
pub mod Streams
pub mod Quic
