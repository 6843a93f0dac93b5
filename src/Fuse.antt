-- ===== src/Fuse.antt =====
-- fuse/: the read policy and the FUSE operations over a snapshot store.
pub mod Policy
pub mod State
pub mod Attributes
pub mod Operations
pub mod ReadOnly
