-- ===== src/Store/Memory.antt =====
-- store/memory/: the in-memory builder (`Builder`) and store (`Store`).
pub mod Store
pub mod Builder
