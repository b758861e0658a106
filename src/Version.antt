-- ===== src/Version.antt =====
-- src/version: which files make up the store at one moment, and how that is recorded.
pub mod Watermark
pub mod Metadata
pub mod Fields
pub mod Floor
pub mod Edit
pub mod Levels
pub mod Apply
pub mod Set
mod Examples
