-- ===== src/Smirk.antt =====
-- pkg/smirk: the sparse Merkle tree that holds the notes, and the batches inserted into it.
pub mod Bits
pub mod Hash
pub mod Node
pub mod Recalculate
pub mod Contents
pub mod Insert
pub mod Insertion
pub mod Sort
pub mod HashWith
pub mod Batch
pub mod Tree
