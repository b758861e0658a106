-- ===== src/Sst.antt =====
-- src/sst: the file format of one sorted table.
pub mod Format
pub mod Codec
pub mod Crc
pub mod Framing
pub mod Footer
pub mod Ranges
pub mod Bloom
pub mod Block
mod Examples
pub mod Iterator
pub mod Concat
pub mod Sources
