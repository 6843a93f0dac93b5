-- ===== src/Parser.antt =====
-- parser/: reading a listing into entries.
pub mod Unicode
pub mod Regex
pub mod Timestamps
pub mod Windows
