-- ===== src/Pieces.antt =====
-- The pieces of a torrent: types.go, and from internal/downloader/downloader.go the geometry of
-- pieces, bitfields, the data file, the resume state and the seed store.
pub mod Torrent
pub mod Geometry
pub mod Bitfield
pub mod Disk
pub mod Resume
pub mod Written
pub mod Seed
mod Examples
