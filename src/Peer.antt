-- ===== src/Peer.antt =====
-- Package peer: the wire protocol of BEP 3 and BEP 6, the handshake and the piece bitfield.
pub mod Bitfield
pub mod MsgId
pub mod Message
pub mod Extension
pub mod ExtHandshake
pub mod Negotiate
pub mod Pex
pub mod Handshake
mod Tests
