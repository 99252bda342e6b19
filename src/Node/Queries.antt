-- ===== src/Node/Queries.antt =====
-- What a node answers about its state: pkg/node/src/node.rs.
use tempo_zk_rollup.Base.{
  ℕ, Bool, false, List, [], ◌∷◌, Option, none, some, any, ◌==◌, if◌then◌else◌,
}
use tempo_zk_rollup.Smirk.Bits.{Element}
use tempo_zk_rollup.Smirk.Tree.{Tree, contains_element}
use tempo_zk_rollup.Smirk.Tree.Path.{path_for, siblings_deepest_first}
use tempo_zk_rollup.Doomslug.Approval.{BlockHeight, Address}
use tempo_zk_rollup.BlockStore.Bytes.{Bytes}
use tempo_zk_rollup.BlockStore.Db.{RocksDb}
use tempo_zk_rollup.BlockStore.Keys.{StoreResult}
use tempo_zk_rollup.BlockStore.Keys
use tempo_zk_rollup.BlockStore.Store.{◌>>=◌, get, get_block_height_by_hash, get_txn_by_hash}
use tempo_zk_rollup.Node.Utxo.{UtxoProof, Mode, validator, node, prover, mock_prover}
use tempo_zk_rollup.Node.Formats.{TxnFormat, txn_v1, TxnMetadata}
use tempo_zk_rollup.Node.State.{Codec, StoredFormat, block_format_ops}

-- `is_validator_for_height`.
unfoldable pub is_validator_for_height :
    Mode → Address → (BlockHeight → List Address) → BlockHeight → Bool
is_validator_for_height validator self validators_for_height height =
    any (λ p. self == p) (validators_for_height height)
is_validator_for_height node self validators_for_height height = false
is_validator_for_height prover self validators_for_height height = false
is_validator_for_height mock_prover self validators_for_height height = false

-- The answer of `get_merkle_paths`: the paths, the first element that is missing, or a panic.
pub data MerklePaths : Type 0 where
  paths : List (List Element) → MerklePaths
  element_not_in_tree : Element → MerklePaths
  panics : MerklePaths

abbrev pub add_path : List Element → MerklePaths → MerklePaths
add_path p (paths ps) = paths (p ∷ ps)
add_path p (element_not_in_tree e) = element_not_in_tree e
add_path p panics = panics

-- `get_merkle_paths`.
unfoldable pub get_merkle_paths :
    {V : Type 0} → (Element → Element → Element) → ℕ → Tree V → List Element → MerklePaths
unfolding path_for
get_merkle_paths merge depth tree [] = paths []
get_merkle_paths merge depth tree (e ∷ es) =
    let rest = get_merkle_paths merge depth tree es in
    let found = elim (path_for merge depth tree e) as (λ o. MerklePaths) [
      | none ↦ panics
      | some p ↦ add_path (siblings_deepest_first depth p) rest
    ] in
    if contains_element tree e then found else element_not_in_tree e

module _ {D : Type 0} (db : RocksDb D) (codec : Codec) where
  -- `get_block_by_hash`.
  unfoldable pub get_block_by_hash : D → Bytes → StoreResult (Option StoredFormat)
  unfolding get get_block_height_by_hash
  get_block_by_hash d hash = do
    height ← get_block_height_by_hash db d hash
    elim height [ none ↦ Keys.ok none | some h ↦ get (block_format_ops codec) db d h ]

  abbrev pub txn_parts : Option TxnFormat → Option (UtxoProof × TxnMetadata)
  txn_parts none = none
  txn_parts (some (txn_v1 u m)) = some (u, m)

  -- `get_txn`.
  unfoldable pub get_txn : D → Bytes → StoreResult (Option (UtxoProof × TxnMetadata))
  unfolding get_txn_by_hash
  get_txn d hash = do t ← get_txn_by_hash (block_format_ops codec) db d hash; Keys.ok (txn_parts t)
