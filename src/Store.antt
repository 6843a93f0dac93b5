-- ===== src/Store.antt =====
-- store/: what builders share, the in-memory builder and its store.
pub mod Building
pub mod Memory
pub mod Errors
pub mod Sqlite
