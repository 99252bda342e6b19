-- ===== src/Node/Formats.antt =====
-- What the block store holds of blocks and transactions: pkg/node/src/node/block_format.rs and
-- txn_format.rs.
use tempo_zk_rollup.Base.{
  ℕ, zero, suc, ◌+◌, ◌*◌, ◌%◌, ◌^◌, ◌≤◌, ◌<◌, ◌≡◌, refl, ap, ap₂, List, [], ◌∷◌, Option, none, some,
  map, length, arith,
}
use tempo_zk_rollup.Doomslug.Approval.{BlockHeight}
use tempo_zk_rollup.BlockStore.Bytes.{Bytes}
use tempo_zk_rollup.Node.Utxo.{UtxoProof}
use tempo_zk_rollup.Node.Validate.{Block}
pub mod Upgrade

pub record BlockMetadata : Type 0 where
  pub timestamp_unix_s : Option ℕ

pub record TxnMetadata : Type 0 where
  pub block_height : BlockHeight
  pub block_time : Option ℕ
  pub block_hash : Bytes
  pub block_txn_index : ℕ

pub data BlockFormat : Type 0 where
  v1 : Block → BlockFormat
  v2 : Block → BlockMetadata → BlockFormat

pub data TxnFormat : Type 0 where
  txn_v1 : UtxoProof → TxnMetadata → TxnFormat

abbrev pub into_block : BlockFormat → Block
into_block (v1 block) = block
into_block (v2 block m) = block

abbrev pub metadata : BlockFormat → BlockMetadata
metadata (v1 block) = record { timestamp_unix_s = none }
metadata (v2 block m) = m

-- The transactions of a block with their places, the first at `i`, and `block_hash` its hash.
abbrev pub block_txns : Block → Bytes → ℕ → List UtxoProof → List TxnFormat
block_txns block block_hash i [] = []
block_txns block block_hash i (t ∷ ts) =
    txn_v1 t (record {
      block_height = block.content.header.height;
      block_time = none;
      block_hash = block_hash;
      block_txn_index = i % 2 ^ 32;
    })
    ∷ block_txns block block_hash (i + 1) ts

abbrev pub set_block_time : Option ℕ → TxnFormat → TxnFormat
set_block_time time (txn_v1 t m) = txn_v1 t (record m { block_time = time })

-- `block_store::Block for BlockFormat`, where `block_hash` is that of the block.
abbrev pub block_height : BlockFormat → BlockHeight
block_height b = (into_block b).content.header.height

module _ (hash : Block → Bytes) where
  abbrev pub block_hash : BlockFormat → Bytes
  block_hash b = hash (into_block b)

  unfoldable pub txns : BlockFormat → List TxnFormat
  txns (v1 block) = block_txns block (hash block) 0 block.content.state.txns
  txns (v2 block m) =
      map (set_block_time m.timestamp_unix_s)
        (block_txns block (hash block) 0 block.content.state.txns)

-- `block_store::Transaction for TxnFormat`.
abbrev pub txn_format_hash : (UtxoProof → Bytes) → TxnFormat → Bytes
txn_format_hash hash (txn_v1 t m) = hash t
