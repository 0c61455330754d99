-- ===== src/Bencode.antt =====
-- Package bencode: values, the decimal text of strconv, Decode, Encode, and their theorems.
pub mod Value
pub mod Access
pub mod Order
pub mod Decimal
pub mod Canonical
pub mod Decode
pub mod Encode
pub mod RoundTrip
mod Tests
