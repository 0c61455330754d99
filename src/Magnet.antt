-- ===== src/Magnet.antt =====
-- Package magnet: the metadata of a magnet link, fetched from a peer.
pub mod Metadata
mod Tests
