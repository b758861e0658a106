-- ===== src/Db.antt =====
-- src/db: the engine above the tables and versions.
pub mod LevelConfig
mod Examples
