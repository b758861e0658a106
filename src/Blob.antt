-- ===== src/Blob.antt =====
-- src/blob and src/util: where a file's object is kept.
pub mod Placement
mod Examples
