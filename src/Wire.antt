-- ===== src/Wire.antt =====
-- internal/protocol/protocol.go: the peer wire protocol. A connection is the list of the bytes
-- that are still to arrive on it; a read that finds too few of them is an error.
pub mod Bytes
pub mod Message
pub mod Framing
pub mod Reading
pub mod Payloads
pub mod Handshake
mod Examples
