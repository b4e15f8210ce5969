-- ===== src/Store.antt =====
-- What a node remembers: src/buffer.rs, src/peer_list.rs and the methods of src/global.rs on them.
pub mod Buffer
pub mod PeerList
pub mod Global
pub mod Queues
pub mod Sweep
pub mod Stables
pub mod Meeting
pub mod Saving
pub mod Kept
