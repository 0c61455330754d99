-- ===== src/Download.antt =====
-- Package download: the pieces of one torrent and who may fetch them.
pub mod PieceQueue
pub mod Client
pub mod Piece
pub mod Upload
pub mod PeerManager
mod Tests
mod TransferTests
