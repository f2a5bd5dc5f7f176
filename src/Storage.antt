-- ===== src/Storage.antt =====
-- storage/: the observation stores and the writer before them.
pub mod Writer
pub mod Sqlite
pub mod Memory
