-- ===== src/Types.antt =====
-- The crate chamomile_types (types/src): what peers are, and their wire form.
pub mod Ids
pub mod Socket
pub mod Peer
pub mod Message
pub mod RoundTrip
pub mod Text
pub mod PeerText
pub mod TextTrip
pub mod PeerTrip
