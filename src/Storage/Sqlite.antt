-- ===== src/Storage/Sqlite.antt =====
-- storage/sqlite_store.py: `SQLiteStore`, an observation store in one database file.
pub mod Database
pub mod Statements
pub mod Store
pub mod Sound
pub mod Checks
pub mod Put
pub mod Purge
pub mod Opening
pub mod Runs
mod Tests
