-- ===== src/Lib.antt =====
-- The rollup keeps its notes in a sparse Merkle tree, a node checks each block against that
-- tree before it is applied, and the validators agree on blocks with Doomslug. This library
-- models these parts of the Rust crates under pkg/ and relates them.
--
-- In Base is what the parts share: Boolean tests on numbers, lists over the native numbers,
-- BTreeMap as an ascending association list (Base.TreeMap) and HashMap as an association list
-- without an order (Base.HashMap).
-- In Smirk are pkg/smirk and the elements of pkg/zk-primitives. Smirk.Bits has the low bits of
-- an element (element/lsb.rs), Smirk.Hash the hashes of empty trees and compute_merkle_root
-- (hash.rs, path.rs), Smirk.Node the nodes and insert_without_hashing, Smirk.Recalculate
-- recalculate_hashes, Smirk.HashWith hash_with (all of tree/tree_repr.rs), Smirk.Sort the sort
-- by bits, Smirk.Batch batches (batch/mod.rs, batch/merge.rs), Smirk.Tree the tree with its map
-- of entries (tree/mod.rs, tree/raw_api.rs, tree/batch.rs) and Smirk.Tree.Path the paths
-- (tree/path.rs).
-- In Doomslug is pkg/doomslug. Doomslug.Approval has the messages (approval.rs); from
-- doomslug.rs, Doomslug.Tracker has the tracker of the approvals of one block,
-- Doomslug.AtHeight the trackers of one height, Doomslug.State the whole state,
-- Doomslug.TimerLoop process_timer, and Doomslug.BlockApproval the check of an approved block.
-- In Node is pkg/node. Node.Utxo has validate_txn (utxo.rs), Node.Validate the blocks and
-- validate (block.rs), Node.Apply apply_block_to_tree (node/block.rs). Node.Leader
-- validate_block and the leader of a height (node/block.rs, node.rs). They use the tree of
-- Smirk. Node.Mempool has the pool of pending transactions (mempool.rs), and Node.BlockCache
-- the cache of blocks (cache.rs).
-- In Node.State is the state that the handlers of a node share (node.rs), in Node.Formats what
-- is stored of blocks and transactions (node/block_format.rs, node/txn_format.rs), in Node.Load
-- the start from what is on disk (node/load.rs), in Node.Transaction the transactions from
-- outside (node/transaction.rs), in Node.Proposal commit_proposal and receive_proposal and in
-- Node.Proposal.Create create_proposal (node/proposal.rs), in Node.Tick the rounds of a tick
-- that commit blocks (node/tick_worker.rs), in Node.Queries reads of the state (node.rs), and
-- in Node.Sync the requests for snapshots, with the chunks in Node.Sync.Chunks and the sets of
-- their elements in Node.Sync.Elements (sync.rs). commit_proposal is what joins the parts: the
-- block goes into the block store, then its leaves into the tree, then its transactions leave
-- the mempool.
-- In BlockStore is pkg/block-store. BlockStore.Bytes has the big-endian bytes, BlockStore.Keys
-- the keys (keys.rs), BlockStore.Db what is assumed of the database, BlockStore.Store the
-- writes and reads (lib.rs), BlockStore.List the lists and their pages (list.rs, and
-- ListableKey of keys.rs) and BlockStore.Migration the migration (migration.rs). The node uses
-- it with its own format of blocks.
-- In WireMessage is the trait of pkg/wire-message with the loop of upgrade (lib.rs).
-- In Primitives are the cursors and the paginator of pkg/primitives (pagination.rs).
-- In Examples are runs at concrete inputs.
--
-- State is passed explicitly: an operation with `&mut self` takes the state and gives the new
-- one. A panic is `none` in an Option, or a constructor `panics` of a result type; a Rust
-- `Result` is a data type with the errors of the source. An element is a number, its bits are
-- the list of its low bits with the highest first, and a tree of depth `n` has `n - 1` levels
-- of parents, as in the source. `hash_merge` is a parameter `merge`, since Poseidon comes from
-- a third-party library; that it has no collisions is a hypothesis where a theorem needs it.
-- The verifiers of proofs and signatures, the validators of a height and the Keccak hashes of
-- transactions and blocks are parameters too. A method of the mempool that holds the lock is
-- one step; commit gives the lock up between its loop and free, which is why these are two
-- definitions.
--
-- RocksDB is a parameter: a record of its get, its batched write, its entries and its bounded
-- iterator, with their documented laws, which are that a get after a write gives the last put
-- of the key, and that an iterator gives the entries within its bounds in the order of their
-- keys. A failure of the database is not modelled. The bytes of borsh are a parameter too, from
-- which what was written can be read back. In the node, the clock, the Ethereum client, the
-- contract and the listeners that are gone are arguments; a message is an element of the list
-- of what is sent. Each handler is one step. An iteration over a HashSet is in the order of the
-- list that the set was made from.
--
-- Stakes wrap around at 2^128, and theorems on thresholds ask that twice the total stays below.
-- Heights and times are numbers without an upper bound, but for the heights of stored blocks,
-- which are below 2^64, and the subtractions on heights in sync.rs, which wrap around. A tree
-- is taken to be at most 257 deep, since an element has 256 bits. The loop of process_timer
-- runs on the 20 rounds that the source gives it. migrate and upgrade run on fuel: two rounds
-- are enough for migrate, since one round leads from version 0 to 1, and one more than the
-- missing versions for upgrade. All other recursion is structural. `rayon::join` is modelled
-- with the left call first, and the keys of a HashMap come in the order of insertion.
--
-- Not modelled: the hash cache other than NoopHashCache, what Persistent writes to the
-- database, the opening of a block store, the status reports of Doomslug and its debug
-- assertions, hashing and signing, which call third-party libraries, the timeouts and the tasks
-- of the node, its network and RPC, and the proving and contract code, which drives third-party
-- provers and Ethereum clients.
pub mod Base
pub mod Smirk
pub mod Doomslug
pub mod BlockStore
pub mod WireMessage
pub mod Primitives
pub mod Node
pub mod Examples
