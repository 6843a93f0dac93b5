-- ===== src/Parser/Windows.antt =====
-- parser/windows_dir: paths, the grammar of a line, the state of a section, and the machine.
pub mod Paths
pub mod Patterns
pub mod Grammar
pub mod State
pub mod Handlers
pub mod Machine
