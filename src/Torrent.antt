-- ===== src/Torrent.antt =====
-- Package torrent: the metainfo file.
pub mod File
pub mod Parse
pub mod Parsed
pub mod Trackers
mod Tests
