-- ===== src/Storage.antt =====
-- Package storage: the files of a torrent on disk.
pub mod Path
pub mod Disk
pub mod MultiFile
pub mod Verify
mod Tests
