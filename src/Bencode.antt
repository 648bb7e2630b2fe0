-- ===== src/Bencode.antt =====
-- internal/protocol/metadata.go: the bencode reader of the metadata exchange, with its copy in
-- internal/downloader/downloader.go.
pub mod Value
pub mod Scan
pub mod Decode
pub mod Progress
pub mod Length
pub mod Hazards
pub mod Numerals
pub mod Emit
pub mod Scalars
pub mod Keys
pub mod RoundTrip
mod Examples
