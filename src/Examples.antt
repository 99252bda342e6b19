-- ===== src/Examples.antt =====
-- Runs of the code of pkg/smirk, pkg/doomslug and pkg/node at concrete inputs.
pub mod Smirk
pub mod Doomslug
pub mod Node
pub mod Pools
pub mod SortedStore
pub mod Blocks
pub mod Encoding
pub mod Proposals
pub mod Sync
pub mod Create
pub mod Load
