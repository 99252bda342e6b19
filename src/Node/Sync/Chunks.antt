-- ===== src/Node/Sync/Chunks.antt =====
-- Snapshot chunks, sent and received: pkg/node/src/sync.rs. The iteration order of a `HashSet` is
-- that of the list that it was made from.
use tempo_zk_rollup.Base.{
  ℕ, ◌+◌, ◌-◌, ◌%◌, ◌^◌, Bool, not, ◌||◌, List, [], ◌∷◌, Option, none, some, min, map, any, filter,
  ◌++◌, ltb, leb, ◌==◌, if◌then◌else◌,
}
use tempo_zk_rollup.Base.HashMap.{nat_eq}
use tempo_zk_rollup.Smirk.Bits.{Element}
use tempo_zk_rollup.Smirk.Batch.{Batch, from_entries}
use tempo_zk_rollup.Smirk.Batch
use tempo_zk_rollup.Smirk.Tree.{Tree, root_hash_with, contains_element}
use tempo_zk_rollup.Doomslug.Approval.{BlockHeight, CryptoHash}
use tempo_zk_rollup.Primitives.Cursor.{included, excluded}
use tempo_zk_rollup.BlockStore.Db.{RocksDb}
use tempo_zk_rollup.BlockStore.Keys
use tempo_zk_rollup.BlockStore.Store.{get, ◌>>=◌}
use tempo_zk_rollup.BlockStore.List.{key_block, lowest_to_highest, list, collect_results}
use tempo_zk_rollup.Node.Utxo.{UtxoProof}
use tempo_zk_rollup.Node.Validate.{Block, block_leaves, non_null}
use tempo_zk_rollup.Node.BlockCache.{is_out_of_sync, get_range, confirm, height_of}
use tempo_zk_rollup.Node.Apply.{persistent_insert_batch}
use tempo_zk_rollup.Node.Formats.{into_block}
use tempo_zk_rollup.Node.State.{Config, NodeShared, Codec, block_format_ops}
use tempo_zk_rollup.Node.Proposal.{receive_proposal}
use tempo_zk_rollup.Node.Sync.{SnapshotChunk, slow_chunk, fast_chunk}

-- Without the later ones of equal elements, as a `HashSet` of the list.
abbrev pub distinct : List Element → List Element
distinct [] = []
distinct (x ∷ xs) = x ∷ filter (λ y. not (y == x)) (distinct xs)

abbrev pub has : List Element → Element → Bool
has xs x = any (λ y. y == x) xs

-- `chunk.sort_by_key` of the heights, which is stable.
abbrev pub insert_by_height : Block → List Block → List Block
insert_by_height b [] = b ∷ []
insert_by_height b (c ∷ cs) =
    let rest = insert_by_height b cs in
    if leb (height_of b) (height_of c) then b ∷ c ∷ cs else c ∷ rest

abbrev pub sort_by_height : List Block → List Block
sort_by_height [] = []
sort_by_height (b ∷ bs) = insert_by_height b (sort_by_height bs)

-- The elements of a fast chunk that the tree does not have.
abbrev pub new_elements : Tree BlockHeight → List Element → List Element
new_elements tree elements = filter (λ e. not (contains_element tree e)) (distinct elements)

-- The batch of a fast chunk: the new elements that are not leaves of the block.
abbrev pub fast_entries : Block → List Element → List (Element × BlockHeight)
fast_entries block new =
    map (λ e. (e, 0))
      (filter (λ e. not (has (non_null (block_leaves block.content.state.txns)) e)) new)

-- Whether every leaf of the block is among the new elements.
abbrev pub has_leaves : Block → List Element → Bool
has_leaves block new =
    not (any (λ e. not (has new e)) (non_null (block_leaves block.content.state.txns)))

-- The height before that of a block; the subtraction wraps.
abbrev pub previous_height : Block → BlockHeight
previous_height block = (height_of block + 2 ^ 64 - 1) % 2 ^ 64

-- How a handler ends.
pub data FastResult (D : Type 0) : Type 0 where
  handled : NodeShared D → FastResult D
  collision_error : NodeShared D → FastResult D
  panics : NodeShared D → FastResult D

module _ {D : Type 0} (db : RocksDb D) (codec : Codec) (merge : Element → Element → Element)
    (txn_hash : UtxoProof → CryptoHash) (is_open : ℕ → Bool) (block_hash : Block → CryptoHash)
    (config : Config) where
  -- `handle_snapshot_request`: whether an offer is sent; `none` is a panic.
  unfoldable pub handle_snapshot_request : BlockHeight → NodeShared D → Option Bool
  unfolding is_out_of_sync
  handle_snapshot_request from_height s = elim (is_out_of_sync s.block_cache) [
    | none ↦ none
    | some behind ↦ some (not (behind || ltb s.block_cache.height from_height))
  ]

  -- `send_snapshot_chunk_slow`: the chunk that is sent.
  unfoldable pub send_snapshot_chunk_slow :
      ℕ → BlockHeight → BlockHeight → NodeShared D → Keys.StoreResult SnapshotChunk
  unfolding list get_range
  send_snapshot_chunk_slow id from to s =
      let to_height = min to (s.block_cache.height + 1) in
      do
        stored ← collect_results (
            list (block_format_ops codec) db key_block s.block_store (included from)
              (excluded to_height) lowest_to_highest)
        Keys.ok (
            slow_chunk id
              (map (λ p. into_block p.1.0) stored ++ get_range from to_height s.block_cache))

  -- `send_snapshot_chunk_fast`, with the elements of the tree and the heights of their metadata.
  unfoldable pub send_snapshot_chunk_fast :
      ℕ → BlockHeight → NodeShared D → Keys.StoreResult SnapshotChunk
  unfolding get
  send_snapshot_chunk_fast id to s = do
    stored ← get (block_format_ops codec) db s.block_store to
    Keys.ok (
        fast_chunk id (elim stored [ none ↦ none | some b ↦ some (into_block b.0) ])
          (map (λ x. x.0) (filter (λ x. leb x.1 to) s.notes_tree.entries)))

  -- The blocks of a chunk, received one by one; `none` is a panic.
  abbrev pub receive_all : List Block → NodeShared D → Option (NodeShared D)
  receive_all [] s = some s
  receive_all (b ∷ bs) s =
      elim (receive_proposal db codec merge txn_hash is_open block_hash config b s) [
        | none ↦ none
        | some s' ↦ receive_all bs s'
      ]

  -- `handle_snapshot_chunk_slow`: the state, and the height of the message that the worker sends
  -- itself, if it sends one.
  unfoldable pub handle_snapshot_chunk_slow :
      List Block → NodeShared D → Option (NodeShared D × Option BlockHeight)
  unfolding receive_proposal is_out_of_sync
  handle_snapshot_chunk_slow chunk s = elim (receive_all (sort_by_height chunk) s) [
    | none ↦ none
    | some s' ↦ elim (is_out_of_sync s'.block_cache) [
      | none ↦ none
      | some behind ↦ some (s', if behind then some s'.block_cache.max_height else none)
    ]
  ]

  -- What follows the insertion in `handle_snapshot_chunk_fast`.
  abbrev pub after_insert : Block → NodeShared D → Batch.Checked (Tree BlockHeight) → FastResult D
  after_insert block s (Batch.ok tree) =
      let s' = record s {
        notes_tree = tree;
        block_cache = confirm (previous_height block) s.block_cache;
      } in
      elim (receive_proposal db codec merge txn_hash is_open block_hash config block s') [
        | none ↦ panics s'
        | some s2 ↦ handled s2
      ]
  after_insert block s (Batch.collides cs) = collision_error s
  after_insert block s Batch.panics = panics s

  -- The part on the tree, where the root is right.
  abbrev pub insert_chunk :
      Block → List Element → NodeShared D → Batch.Checked (Batch BlockHeight) → FastResult D
  insert_chunk block new s (Batch.ok batch) =
      let inserted =
        after_insert block s (persistent_insert_batch merge config.tree_depth s.notes_tree batch) in
      if has_leaves block new then inserted else handled s
  insert_chunk block new s (Batch.collides cs) = collision_error s
  insert_chunk block new s Batch.panics = panics s

  -- `handle_snapshot_chunk_fast`.
  unfoldable pub handle_snapshot_chunk_fast :
      Option Block → List Element → NodeShared D → FastResult D
  unfolding persistent_insert_batch confirm receive_proposal
  handle_snapshot_chunk_fast none elements s = handled s
  handle_snapshot_chunk_fast (some block) elements s =
      let new = new_elements s.notes_tree elements in
      let inserted =
        insert_chunk block new s (from_entries config.tree_depth (fast_entries block new)) in
      elim (root_hash_with merge config.tree_depth s.notes_tree new) [
        | none ↦ panics s
        | some root ↦ if root == block.content.state.root_hash then inserted else handled s
      ]
