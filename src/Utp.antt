-- ===== src/Utp.antt =====
-- Package utp: the packet header, sequence numbers, and the receiving side of a connection.
pub mod Packet
pub mod Seq
pub mod Receive
mod Tests
