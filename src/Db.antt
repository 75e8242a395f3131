-- ===== src/Db.antt =====
-- db/
pub mod Database
pub mod Engine
pub mod Error
pub mod Escape
pub mod Index
pub mod Row
pub mod Schema
pub mod Tx
pub mod Value
