-- ===== src/Node.antt =====
-- pkg/node: what a node checks before a block goes into the tree, and its pools.
pub mod Mempool
pub mod BlockCache
pub mod Utxo
pub mod Validate
pub mod ValidBlock
pub mod Leader
pub mod Apply
pub mod Ledger
pub mod Formats
pub mod State
pub mod Transaction
pub mod Proposal
pub mod Sync
pub mod Load
pub mod Queries
pub mod Tick
