-- ===== src/Bencode/RoundTrip.antt =====
-- What Encode writes, Decode reads back: for strings and integers, for one round of each loop, and
-- for whole values.
pub mod Scalars
pub mod Text
pub mod Rounds
pub mod Values
pub mod Rearranged
pub mod Plus
