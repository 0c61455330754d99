-- ===== src/Dht.antt =====
-- Package dht: identifiers and the routing table.
pub mod Id
pub mod Table
pub mod Closest
pub mod Compact
pub mod Valid
pub mod Updates
pub mod Krpc
pub mod Node
mod Tests
