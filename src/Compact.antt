-- ===== src/Compact.antt =====
-- src/compact: what merges and compacts the sources.
pub mod Merging
pub mod Picker
mod Examples
