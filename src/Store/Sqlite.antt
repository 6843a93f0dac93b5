-- ===== src/Store/Sqlite.antt =====
-- store/sqlite: the store in a file. A row of a table is a record with the columns of
-- `SCHEMA`, and a statement of SQL is the function of the tables that it stands for.
pub mod Codec
pub mod Tables
pub mod Artifact
pub mod Builder
pub mod Opening
pub mod Reading
pub mod Store
pub mod Validation
pub mod Checking
pub mod Finishing
