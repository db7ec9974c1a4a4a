-- ===== src/Torrent.antt =====
-- internal/torrent: metainfo.go (the bencode reader and writer, and the inventory of a descriptor).
pub mod Bencode
pub mod Inspect
pub mod Transmission
mod Tests
