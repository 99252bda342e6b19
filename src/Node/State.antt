-- ===== src/Node/State.antt =====
-- The state that a node shares among its handlers: `NodeShared` of pkg/node/src/node.rs, less the
-- network, the timers and the clients.
use tempo_zk_rollup.Base.{ℕ, ◌^◌, ◌<◌, ◌≡◌, List, Option, some, length}
use tempo_zk_rollup.Smirk.Bits.{Element}
use tempo_zk_rollup.Smirk.Tree.{Tree}
use tempo_zk_rollup.Doomslug.Approval.{BlockHeight, CryptoHash}
use tempo_zk_rollup.BlockStore.Bytes.{Bytes}
use tempo_zk_rollup.BlockStore.Store.{StoredBlock}
use tempo_zk_rollup.Node.Utxo.{UtxoProof, Mode}
use tempo_zk_rollup.Node.Validate.{Block}
use tempo_zk_rollup.Node.BlockCache.{BlockCache}
use tempo_zk_rollup.Node.Mempool.{MempoolState}
use tempo_zk_rollup.Node.Formats.{
  BlockFormat, TxnFormat, txn_v1, into_block, block_height, block_hash, txns, txn_format_hash,
}

-- The part of `Config` that the handlers read.
pub record Config : Type 0 where
  pub mode : Mode
  pub bad_blocks : List BlockHeight
  pub block_txns_count : ℕ
  pub tree_depth : ℕ

-- A listener of commits, and a sender that a transaction came with, are numbers.
pub record NodeShared (D : Type 0) : Type 0 where
  pub last_commit : Option ℕ
  pub listeners : List ℕ
  pub block_store : D
  pub notes_tree : Tree BlockHeight
  pub mempool : MempoolState CryptoHash UtxoProof BlockHeight Element
  pub block_cache : BlockCache

-- The blocks that have a `u64` for a height.
abbrev pub StoredFormat : Type 0
StoredFormat = (b : BlockFormat) × (block_height b < 2 ^ 64)

-- The hashes of blocks and transactions, and the bytes that borsh writes and reads.
pub record Codec : Type 0 where
  pub hash : Block → Bytes
  pub utxo_hash : UtxoProof → Bytes
  pub to_bytes : StoredFormat → Bytes
  pub from_bytes : Bytes → Option StoredFormat
  pub txn_to_bytes : TxnFormat → Bytes
  pub txn_from_bytes : Bytes → Option TxnFormat
  pub length-hash : (b : Block) → length (hash b) ≡ 32
  pub length-utxo_hash : (u : UtxoProof) → length (utxo_hash u) ≡ 32
  pub from_bytes-to_bytes : (b : StoredFormat) → from_bytes (to_bytes b) ≡ some b
  pub txn_from_bytes-txn_to_bytes : (t : TxnFormat) → txn_from_bytes (txn_to_bytes t) ≡ some t

pub length-txn_format_hash :
    (codec : Codec) (t : TxnFormat) → length (txn_format_hash codec.utxo_hash t) ≡ 32
length-txn_format_hash codec (txn_v1 u m) = codec.length-utxo_hash u

-- `block_store::Block for BlockFormat`.
abbrev pub block_format_ops : Codec → StoredBlock StoredFormat TxnFormat
unfolding txns
block_format_ops codec = record {
  block_height = λ b. block_height b.0;
  block_hash = λ b. block_hash codec.hash b.0;
  txns = λ b. txns codec.hash b.0;
  txn_hash = txn_format_hash codec.utxo_hash;
  to_bytes = codec.to_bytes;
  from_bytes = codec.from_bytes;
  txn_to_bytes = codec.txn_to_bytes;
  txn_from_bytes = codec.txn_from_bytes;
  height_u64 = λ b. b.1;
  length-block_hash = λ b. codec.length-hash (into_block b.0);
  length-txn_hash = length-txn_format_hash codec;
  from_bytes-to_bytes = codec.from_bytes-to_bytes;
  txn_from_bytes-txn_to_bytes = codec.txn_from_bytes-txn_to_bytes;
}
