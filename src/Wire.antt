-- ===== src/Wire.antt =====
-- What peers send to one another: src/hole_punching.rs, src/transports.rs and `CoreData` of
-- src/session.rs.
pub mod Hole
pub mod Endpoint
pub mod Core
pub mod CoreTrip
pub mod PeersTrip
pub mod EndpointTrip
