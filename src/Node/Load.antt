-- ===== src/Node/Load.antt =====
-- Starting from what is on disk: `load_db_and_smirk` of pkg/node/src/node/load.rs. The files are
-- the database and the tree that are loaded from them.
use tempo_zk_rollup.Base.{
  ◌+◌, ◌-◌, ◌%◌, ◌^◌, ◌<◌, Bool-cases, false, ==_refl, ◌≡◌, inl, inr, Bool, List, Option, none,
  some, any, ◌==◌, ==→eq, if◌then◌else◌, arith,
}
use tempo_zk_rollup.Smirk.Bits.{Element}
use tempo_zk_rollup.Smirk.Batch
use tempo_zk_rollup.Smirk.Tree.{Tree, root_hash}
use tempo_zk_rollup.Doomslug.Approval.{BlockHeight, CryptoHash}
use tempo_zk_rollup.BlockStore.Db.{RocksDb}
use tempo_zk_rollup.BlockStore.Keys
use tempo_zk_rollup.BlockStore.Store.{get, get_max_height}
use tempo_zk_rollup.Node.Utxo.{UtxoProof, Mode, Error, block_store_error, smirk_collision_error}
use tempo_zk_rollup.Smirk.Tree.Valid.{IsValid}
use tempo_zk_rollup.Node.Utxo
use tempo_zk_rollup.Node.Ledger.{apply_block_to_tree-root}
use tempo_zk_rollup.Node.Validate.{Block, validate}
use tempo_zk_rollup.Node.Apply.{apply_block_to_tree}
use tempo_zk_rollup.Node.Formats.{into_block}
use tempo_zk_rollup.Node.State.{Config, Codec, StoredFormat, block_format_ops}

-- The tree and the last block to start from; or the genesis with a new tree, and a new block store
-- too where both are reset.
pub data Loaded : Type 0 where
  loaded : Tree BlockHeight → Block → Loaded
  tree_reset : Loaded
  both_reset : Loaded
  failed : Error → Loaded
  panicked : Loaded

-- A read of the block store that must find a block: an `unwrap` of what it finds.
abbrev pub with_block : Keys.StoreResult (Option StoredFormat) → (Block → Loaded) → Loaded
with_block (Keys.ok none) next = panicked
with_block (Keys.ok (some b)) next = next (into_block b.0)
with_block Keys.invalid_key next = failed block_store_error
with_block (Keys.invalid_version n) next = failed block_store_error
with_block Keys.wire_message next = failed block_store_error
with_block Keys.panics next = panicked

-- A read of the maximum height.
abbrev pub with_max_height : Keys.StoreResult (Option BlockHeight) → (BlockHeight → Loaded) → Loaded
with_max_height (Keys.ok none) next = tree_reset
with_max_height (Keys.ok (some h)) next = next h
with_max_height Keys.invalid_key next = failed block_store_error
with_max_height (Keys.invalid_version n) next = failed block_store_error
with_max_height Keys.wire_message next = failed block_store_error
with_max_height Keys.panics next = panicked

module _ {D : Type 0} (db : RocksDb D) (codec : Codec) (merge : Element → Element → Element)
    (config : Config) where
  -- The recovery of a crash between the block store and the tree, with its assertion.
  abbrev pub recovered : Block → Batch.Checked (Tree BlockHeight) → Loaded
  recovered block (Batch.ok tree) =
      if root_hash merge tree == block.content.state.root_hash then loaded tree block else panicked
  recovered block (Batch.collides cs) = failed smirk_collision_error
  recovered block Batch.panics = panicked

  -- `load_db_and_smirk`; the height before 0 wraps around.
  unfoldable pub load_db_and_smirk : D → Tree BlockHeight → Loaded
  unfolding get get_max_height apply_block_to_tree
  load_db_and_smirk d tree = with_max_height (get_max_height db d) (λ max_height.
      with_block (get (block_format_ops codec) db d max_height) (λ block.
        if root_hash merge tree == block.content.state.root_hash
        then loaded tree block
        else with_block (get (block_format_ops codec) db d ((max_height + (2 ^ 64 - 1)) % 2 ^ 64))
            (λ previous.
              if root_hash merge tree == previous.content.state.root_hash
              then recovered block (
                  apply_block_to_tree merge config.tree_depth tree block.content.state max_height
                    (any (λ h. h == max_height) config.bad_blocks))
              else both_reset)))

  module _ (verify : UtxoProof → Bool) (txn_hash : UtxoProof → CryptoHash) where
    -- The block store is one block ahead of a well-formed tree, as after a crash in
    -- `commit_proposal`: its last block is at the height `h + 1`, is not a bad block and passes
    -- `validate` against the tree, and the tree has the root of the block at `h`. Where
    -- `apply_block_to_tree` succeeds on the last block, `load_db_and_smirk` starts from that
    -- block, with a tree that has its root, and the assertion on that root does not fail.
    pub load_db_and_smirk-recovers :
        (d : D) (tree tree' : Tree BlockHeight) (h : BlockHeight) (block previous : StoredFormat)
        (node_mode : Mode) (store : List (BlockHeight × Element))
        → h + 1 < 2 ^ 64
        → get_max_height db d ≡ Keys.ok (some (h + 1))
        → get (block_format_ops codec) db d (h + 1) ≡ Keys.ok (some block)
        → get (block_format_ops codec) db d h ≡ Keys.ok (some previous)
        → any (λ x. x == (h + 1)) config.bad_blocks ≡ false
        → IsValid merge config.tree_depth tree
        → root_hash merge tree ≡ (into_block previous.0).content.state.root_hash
        → validate merge verify txn_hash config.tree_depth
            (into_block block.0).content
            node_mode
            store
            tree
          ≡ Utxo.ok tt
        → apply_block_to_tree merge config.tree_depth tree
            (into_block block.0).content.state
            (h + 1)
            false
          ≡ Batch.ok tree'
        → (t : Tree BlockHeight) × (load_db_and_smirk d tree ≡ loaded t (into_block block.0))
          × (root_hash merge t ≡ (into_block block.0).content.state.root_hash)
    unfolding load_db_and_smirk
    load_db_and_smirk-recovers d tree tree' h block previous node_mode store u m g p bad v same
          passed applied =
        let root =
          apply_block_to_tree-root merge verify txn_hash config.tree_depth tree tree'
            (into_block block.0).content node_mode store (h + 1) v passed applied in
        let at_h : (h + 1 + (2 ^ 64 - 1)) % 2 ^ 64 ≡ h = omega arith in
        elim (Bool-cases (root_hash merge tree == (into_block block.0).content.state.root_hash)) [
          | inl t ↦ (
            tree,
            rw (load_db_and_smirk, m, g, t),
            ==→eq (root_hash merge tree) (into_block block.0).content.state.root_hash t,
          )
          | inr f ↦ (
            tree',
            rw (
              load_db_and_smirk,
              m,
              g,
              f,
              at_h,
              p,
              same,
              bad,
              applied,
              root,
              ==_refl (into_block previous.0).content.state.root_hash,
              ==_refl (into_block block.0).content.state.root_hash,
            ),
            root,
          )
        ]
