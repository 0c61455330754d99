-- ===== src/Engine.antt =====
-- Package engine: which pieces a session leaves out, how far a file is,
-- and when a session counts as stalled.
pub mod SkipMask
pub mod SkipRecord
pub mod FileProgress
pub mod StallDetector
mod Tests
