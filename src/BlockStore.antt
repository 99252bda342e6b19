-- ===== src/BlockStore.antt =====
-- pkg/block-store: blocks in a key-value database, under keys whose byte order is that of heights.
pub mod Bytes
pub mod Keys
pub mod Db
pub mod Store
pub mod Set
pub mod View
pub mod List
pub mod Entries
pub mod Migration
