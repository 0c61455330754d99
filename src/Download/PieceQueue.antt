-- ===== src/Download/PieceQueue.antt =====
-- download/piecequeue.go: the state and the operations of PieceQueue. A map is an association list
-- or, where only lookups matter, a function; the order of a list stands for the iteration order,
-- which Go leaves open. Availability may fall below zero, as in the source.
pub mod Buckets
pub mod Queue
pub mod Pick
pub mod Sample
pub mod Ascending
pub mod Consistent
pub mod Picked
pub mod Steps
pub mod Runs
