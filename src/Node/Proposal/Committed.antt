-- ===== src/Node/Proposal/Committed.antt =====
-- What a commit leaves in the store, the tree and the mempool: `commit_proposal` of
-- pkg/node/src/node/proposal.rs, for a block that validates.
use tempo_zk_rollup.Base.{
  ℕ, ◌^◌, ◌<◌, ◌≡◌, ◌≢◌, refl, ap, ◌∙◌, Bool, true, false, List, [], ◌∷◌, ◌++◌, none, some, map,
  any, All, ◌==◌, arith,
}
use tempo_zk_rollup.Base.HashMap
use tempo_zk_rollup.Base.HashMap.{nat_eq}
use tempo_zk_rollup.Smirk.Bits.{Element}
use tempo_zk_rollup.Smirk.Batch
use tempo_zk_rollup.Smirk.Tree.{Tree, root_hash, contains_element}
use tempo_zk_rollup.Smirk.Tree.Valid.{IsValid}
use tempo_zk_rollup.Doomslug.Approval.{BlockHeight, CryptoHash}
use tempo_zk_rollup.BlockStore.Db.{RocksDb}
use tempo_zk_rollup.BlockStore.View.{View, Shows, view_set, set-Shows}
use tempo_zk_rollup.Node.Utxo.{
  UtxoProof, Mode, input_list, output_list, leaves, IsFresh, validate_txn, validate_txn_iff,
}
use tempo_zk_rollup.Node.Utxo
use tempo_zk_rollup.Node.Validate.{Block, block_leaves, non_null, validate}
use tempo_zk_rollup.Node.ValidBlock.{validate-ValidBlock}
use tempo_zk_rollup.Node.Ledger.{apply_block_to_tree-keys, apply_block_to_tree-root}
use tempo_zk_rollup.Node.Apply.{apply_block_to_tree}
use tempo_zk_rollup.Node.BlockCache.{height_of}
use tempo_zk_rollup.Node.Mempool.{member}
use tempo_zk_rollup.Node.Mempool.Commit.{commit_lem}
use tempo_zk_rollup.Node.State.{Config, NodeShared, Codec, block_format_ops}
use tempo_zk_rollup.Node.Proposal.{
  Outcome, committed, txn_keys, tree_answer, stored_block, commit_proposal, finish_commit,
}

module _ {V : Type 0} (tree : Tree V) where
  fresh_leaves :
      (ls rest : List Element)
      → All (IsFresh tree) ls
      → any (λ e. contains_element tree e) (non_null rest) ≡ false
      → any (λ e. contains_element tree e) (non_null (ls ++ rest)) ≡ false
  fresh_leaves [] rest f h = h
  fresh_leaves (l ∷ ls) rest f h = ground (arith, f.0, fresh_leaves ls rest f.1 h)

  -- The leaves of transactions that are valid are not in the tree.
  fresh_block :
      (verify : UtxoProof → Bool) (txn_hash : UtxoProof → CryptoHash) (node_mode : Mode)
      (height : BlockHeight) (store : List (BlockHeight × Element)) (us : List UtxoProof)
      → All (λ u. validate_txn verify txn_hash node_mode u height store tree ≡ Utxo.ok tt) us
      → any (λ e. contains_element tree e) (non_null (block_leaves us)) ≡ false
  fresh_block verify txn_hash node_mode height store [] h = refl
  fresh_block verify txn_hash node_mode height store (u ∷ us) h =
      let rest = fresh_block verify txn_hash node_mode height store us h.1 in
      let (proof, recent, inputs, outputs) =
        (validate_txn_iff verify txn_hash node_mode u height store tree).0 h.0 in
      fresh_leaves (input_list u) (output_list u ++ block_leaves us) inputs
        (fresh_leaves (output_list u) (block_leaves us) outputs rest)

module _ {D : Type 0} (db : RocksDb D) (codec : Codec) (merge : Element → Element → Element)
    (verify : UtxoProof → Bool) (txn_hash : UtxoProof → CryptoHash) (is_open : ℕ → Bool) where
  -- The ends of a commit of a block: it is in the store and the tree, or in the store only.
  pub data CommitEnd (config : Config) (now : ℕ) (block : Block) (u : height_of block < 2 ^ 64)
      (s : NodeShared D) (v : View (block_format_ops codec)) (r : (NodeShared D × List ℕ) × Outcome)
      : Type 0 where
    commits :
        r.1 ≡ committed
        → Shows (block_format_ops codec) db r.0.0.block_store (
            view_set
              (block_format_ops codec)
              v
              (stored_block db codec merge txn_hash is_open now block u))
        → IsValid merge config.tree_depth r.0.0.notes_tree
        → root_hash merge r.0.0.notes_tree ≡ block.content.state.root_hash
        → ((k : CryptoHash)
            → member k (map txn_hash block.content.state.txns) ≡ true
            → HashMap.lookup k r.0.0.mempool.txns ≡ none)
        → CommitEnd config now block u s v r
    stops :
        r.1 ≢ committed
        → Shows (block_format_ops codec) db r.0.0.block_store (
            view_set
              (block_format_ops codec)
              v
              (stored_block db codec merge txn_hash is_open now block u))
        → r.0.0.notes_tree ≡ s.notes_tree
        → r.0.0.mempool ≡ s.mempool
        → CommitEnd config now block u s v r

  keys_lem :
      (block : Block) (ks : List CryptoHash)
      → map (λ (x : CryptoHash × Block). x.0) (map (λ k. (k, block)) ks) ≡ ks
  keys_lem block [] = refl
  keys_lem block (k ∷ ks) = ap (λ t. k ∷ t) (keys_lem block ks)

  module _ (config : Config) (now : ℕ) (block : Block) (u : height_of block < 2 ^ 64)
      (s : NodeShared D) (v : View (block_format_ops codec)) (node_mode : Mode)
      (store : List (BlockHeight × Element)) (valid : IsValid merge config.tree_depth s.notes_tree)
      (passed : validate merge verify txn_hash config.tree_depth block.content node_mode store
          s.notes_tree
        ≡ Utxo.ok tt) where
    -- The end by the tree's answer, from a state whose store has the block.
    answered :
        (s2 : NodeShared D)
        → s2.notes_tree ≡ s.notes_tree
        → s2.mempool ≡ s.mempool
        → Shows (block_format_ops codec) db s2.block_store (
            view_set
              (block_format_ops codec)
              v
              (stored_block db codec merge txn_hash is_open now block u))
        → (r : Batch.Checked (Tree BlockHeight))
        → apply_block_to_tree merge config.tree_depth s.notes_tree block.content.state
            (height_of block)
            false
          ≡ r
        → CommitEnd config now block u s v (tree_answer db codec merge txn_hash is_open block s2 r)
    unfolding finish_commit
    answered s2 same_tree same_mempool shows (Batch.ok t) q =
        commits refl shows
          (apply_block_to_tree-keys merge config.tree_depth s.notes_tree t block.content.state
            (height_of block) valid q).0
          (apply_block_to_tree-root merge verify txn_hash config.tree_depth s.notes_tree t
            block.content node_mode store (height_of block) valid passed q)
          (λ k m.
            (commit_lem (height_of block)
              (map (λ k. (k, block)) (txn_keys db codec merge txn_hash is_open block)) s2.mempool
              k).0
            ∙ rw (keys_lem block (map txn_hash block.content.state.txns), m))
    answered s2 same_tree same_mempool shows (Batch.collides cs) q =
        stops (λ p. absurd (cc)) shows same_tree same_mempool
    answered s2 same_tree same_mempool shows Batch.panics q =
        stops (λ p. absurd (cc)) shows same_tree same_mempool

    -- For a state whose tree is well-formed and whose block store answers as a view does, and a
    -- block that `validate` lets through against that tree and that is not one of the bad
    -- blocks, after `commit_proposal` the block store answers as the view with the block in it.
    -- Either the call ends with `Ok`, the tree is well-formed and has the root that the block
    -- states, and the transactions of the block are out of the mempool; or it does not, and the
    -- tree and the mempool are as before.
    pub commit_proposal-CommitEnd :
        any (λ h. h == height_of block) config.bad_blocks ≡ false
        → Shows (block_format_ops codec) db s.block_store v
        → CommitEnd config now block u s v
            (commit_proposal db codec merge txn_hash is_open config now block u s)
    unfolding commit_proposal
    commit_proposal-CommitEnd good shows =
        let (d, q, shows') =
          set-Shows (block_format_ops codec) db s.block_store v
            (stored_block db codec merge txn_hash is_open now block u) shows in
        let fresh =
          fresh_block s.notes_tree verify txn_hash node_mode (height_of block) store
            block.content.state.txns
            (validate-ValidBlock merge verify txn_hash config.tree_depth block.content node_mode
              store s.notes_tree passed).valid in
        rw (commit_proposal, good, fresh, q)
          (answered (record s { last_commit = some now; block_store = d }) refl refl shows' _ refl)
