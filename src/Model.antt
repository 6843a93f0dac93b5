-- ===== src/Model.antt =====
-- model/: the domain objects that parsers, builders and stores exchange.
pub mod Enums
pub mod Message
pub mod DateTime
pub mod Metadata
pub mod Entry
pub mod Node
pub mod Snapshot
