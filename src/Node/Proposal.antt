-- ===== src/Node/Proposal.antt =====
-- Proposals: `commit_proposal`, `receive_proposal` and `create_proposal` of
-- pkg/node/src/node/proposal.rs.
pub mod Committed
pub mod Created
pub mod Create
use tempo_zk_rollup.Base.{
  ℕ, ◌^◌, ◌<◌, ◌≡◌, Bool, true, false, not, ◌&&◌, ◌++◌, List, [], ◌∷◌, Option, none, some, map, any,
  filter, ◌==◌, if◌then◌else◌,
}
use tempo_zk_rollup.Base.HashMap.{nat_eq}
use tempo_zk_rollup.Smirk.Bits.{Element}
use tempo_zk_rollup.Smirk.Batch
use tempo_zk_rollup.Smirk.Tree.{Tree, root_hash, root_hash_with, contains_element}
use tempo_zk_rollup.Doomslug.Approval.{BlockHeight, CryptoHash, Address}
use tempo_zk_rollup.BlockStore.Db.{RocksDb}
use tempo_zk_rollup.BlockStore.Keys
use tempo_zk_rollup.BlockStore.Store.{set}
use tempo_zk_rollup.BlockStore.List.{key_block}
use tempo_zk_rollup.BlockStore.List.Blocks.{blocks}
use tempo_zk_rollup.Node.Utxo.{
  UtxoProof, Error, Result, ok, err, panics, validator, leaf_already_inserted_in_the_same_block,
  note_already_spent, utxo_root_is_not_recent_enough, invalid_transaction, block_store_error,
  smirk_collision_error,
}
use tempo_zk_rollup.Node.Validate.{Block, BlockContent, BlockState, block_leaves, non_null}
use tempo_zk_rollup.Node.Leader.{validate_block}
use tempo_zk_rollup.Node.Apply.{apply_block_to_tree}
use tempo_zk_rollup.Node.BlockCache.{insert, confirm, height_of}
use tempo_zk_rollup.Node.Mempool.{commit, lease_txns, lease_batch}
use tempo_zk_rollup.Node.Formats.{v2, into_block}
use tempo_zk_rollup.Node.State.{Config, NodeShared, Codec, StoredFormat, block_format_ops}
use tempo_zk_rollup.Node.Transaction.{Ethereum, validate_transaction}

-- How `commit_proposal` ends: with `Ok`, with an error, or with a panic.
pub data Outcome : Type 0 where
  committed : Outcome
  failed : Error → Outcome
  panicked : Outcome

-- The end of a call as a `Result`.
abbrev pub to_result : {A : Type 0} → A → Outcome → Result A
to_result a committed = ok a
to_result a (failed e) = err e
to_result a panicked = panics

-- The first transaction that is refused, if any is.
abbrev pub first_refused :
    (UtxoProof → Result (Unit {0}))
    → List (CryptoHash × UtxoProof)
    → Result (Option (UtxoProof × Error))
first_refused check [] = ok none
first_refused check ((k, u) ∷ rest) =
    let later = first_refused check rest in
    elim (check u) [ ok t ↦ later | err e ↦ ok (some (u, e)) | panics ↦ panics ]

-- The keys that `create_proposal` gives an error when the block does not validate: that of the
-- transaction that the error names, or all.
abbrev pub refused_keys : Error → List CryptoHash → List (CryptoHash × Error)
refused_keys e all = elim e as (λ x. List (CryptoHash × Error)) [
  | leaf_already_inserted_in_the_same_block leaf h failing ↦ (failing, e) ∷ []
  | note_already_spent note failing ↦ (failing, e) ∷ []
  | utxo_root_is_not_recent_enough root recent h ↦ (h, e) ∷ []
  | _ ↦ map (λ k. (k, e)) all
]

module _ {D : Type 0} (db : RocksDb D) (codec : Codec) (merge : Element → Element → Element)
    (txn_hash : UtxoProof → CryptoHash) (is_open : ℕ → Bool) where
  -- The keys of a block's transactions.
  abbrev pub txn_keys : Block → List CryptoHash
  txn_keys block = map txn_hash block.content.state.txns

  -- What `commit_proposal` does once the tree has the block, and to whom it sends the block: the
  -- senders of the transactions and the listeners, of which those that are gone are dropped.
  unfoldable pub finish_commit : Block → Tree BlockHeight → NodeShared D → NodeShared D × List ℕ
  finish_commit block tree s =
      let (mempool, waiting) =
        commit (height_of block) (map (λ k. (k, block)) (txn_keys block)) s.mempool in
      let listeners = filter is_open s.listeners in
      (
        record s { notes_tree = tree; mempool = mempool; listeners = listeners },
        map (λ w. w.0) waiting ++ listeners,
      )

  -- The last part of `commit_proposal`, with the tree's answer.
  abbrev pub tree_answer :
      Block → NodeShared D → Batch.Checked (Tree BlockHeight) → (NodeShared D × List ℕ) × Outcome
  tree_answer block s (Batch.ok tree) = (finish_commit block tree s, committed)
  tree_answer block s (Batch.collides cs) = ((s, []), failed smirk_collision_error)
  tree_answer block s Batch.panics = ((s, []), panicked)

  -- The middle part, with the block store's answer.
  abbrev pub store_answer :
      ℕ → Bool → Block → NodeShared D → Keys.StoreResult D → (NodeShared D × List ℕ) × Outcome
  store_answer depth skip_validation block s (Keys.ok d) =
      tree_answer block (record s { block_store = d })
        (apply_block_to_tree merge depth s.notes_tree block.content.state (height_of block)
          skip_validation)
  store_answer depth skip_validation block s Keys.invalid_key = ((s, []), failed block_store_error)
  store_answer depth skip_validation block s (Keys.invalid_version n) =
      ((s, []), failed block_store_error)
  store_answer depth skip_validation block s Keys.wire_message = ((s, []), failed block_store_error)
  store_answer depth skip_validation block s Keys.panics = ((s, []), panicked)

  -- The block as it is stored, with the time of its commit.
  abbrev pub stored_block : ℕ → (block : Block) → height_of block < 2 ^ 64 → StoredFormat
  stored_block now block u = (v2 block (record { timestamp_unix_s = some now }), u)

  -- `commit_proposal` at a time.
  unfoldable pub commit_proposal :
      Config
      → ℕ
      → (block : Block) → height_of block < 2 ^ 64
      → NodeShared D
      → (NodeShared D × List ℕ) × Outcome
  unfolding finish_commit apply_block_to_tree set
  commit_proposal config now block u s =
      let s1 = record s { last_commit = some now } in
      let skip_validation = any (λ h. h == height_of block) config.bad_blocks in
      let spent =
        any (λ e. contains_element s.notes_tree e)
          (non_null (block_leaves block.content.state.txns)) in
      if not skip_validation && spent
      then ((s1, []), panicked)
      else store_answer config.tree_depth skip_validation block s1
          (set (block_format_ops codec) db s.block_store (stored_block now block u))

  -- `receive_proposal`; a validator panics.
  unfoldable pub receive_proposal :
      (Block → CryptoHash) → Config → Block → NodeShared D → Option (NodeShared D)
  receive_proposal block_hash config block s = elim config.mode as (λ m. Option (NodeShared D)) [
    | validator ↦ none
    | _ ↦ some (record s {
      block_cache = insert block_hash block s.block_cache;
      mempool = lease_txns (height_of block) (txn_keys block) s.mempool;
    })
  ]

  -- The roots of the stored blocks by their heights.
  abbrev pub stored_roots : D → List (BlockHeight × Element)
  stored_roots d =
      map (λ p. (p.0, (into_block p.1.0).content.state.root_hash))
        (blocks (block_format_ops codec) key_block db d)

  -- The root of the block that a validator proposes; a tree that cannot take the leaves panics.
  unfoldable pub proposed_root : ℕ → Tree BlockHeight → List UtxoProof → Option Element
  proposed_root depth tree txns = elim (non_null (block_leaves txns)) [
    | [] ↦ some (root_hash merge tree)
    | l ∷ ls ↦ root_hash_with merge depth tree (l ∷ ls)
  ]
