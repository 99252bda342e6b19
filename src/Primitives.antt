-- ===== src/Primitives.antt =====
-- pkg/primitives: what the crates share.
pub mod Pagination
pub mod Cursor
