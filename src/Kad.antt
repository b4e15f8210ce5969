-- ===== src/Kad.antt =====
-- src/kad.rs: the Kademlia tree of a node's peers.
pub mod Distance
pub mod Node
pub mod Lookup
pub mod Tree
pub mod Double
pub mod Cells
pub mod Scan
pub mod Split
pub mod Post
pub mod Insert
pub mod Search
pub mod Removal
