-- ===== src/Node/Tick/Committed.antt =====
-- What a round of a tick leaves: pkg/node/src/node/tick_worker.rs.
use tempo_zk_rollup.Base.{
  ℕ, ◌^◌, ◌<◌, ◌≡◌, refl, sym, subst, ap, ◌⊎◌, inl, inr, Bool, true, false, List, some, any, ltb,
  ltb→lt, ◌==◌,
}
use tempo_zk_rollup.Base.HashMap.{nat_eq}
use tempo_zk_rollup.Smirk.Bits.{Element}
use tempo_zk_rollup.Smirk.Tree.{root_hash}
use tempo_zk_rollup.Smirk.Tree.Valid.{IsValid}
use tempo_zk_rollup.BlockStore.Db.{RocksDb}
use tempo_zk_rollup.BlockStore.View.{View, Shows, view_set}
use tempo_zk_rollup.Node.Utxo.{Result, ok, err, panics}
use tempo_zk_rollup.Node.Validate.{Block, validate}
use tempo_zk_rollup.Node.ValidBlock.Iff.{validate_iff}
use tempo_zk_rollup.Node.Leader.{validate_block_iff}
use tempo_zk_rollup.Node.BlockCache.{get_next_commit_block, confirm, height_of}
use tempo_zk_rollup.Node.State.{Config, NodeShared, Codec, block_format_ops}
use tempo_zk_rollup.Node.Proposal.{
  Outcome, committed, failed, panicked, commit_proposal, stored_block, stored_roots,
}
use tempo_zk_rollup.Node.Proposal.Committed.{commits, stops, commit_proposal-CommitEnd}
use tempo_zk_rollup.Node.Proposal.Create.{Proposer, validation}
use tempo_zk_rollup.Node.Tick.{
  TickRound, again, after_commit, commit_block, after_validation_of, commit_round,
}

module _ {D : Type 0} (db : RocksDb D) (codec : Codec) (merge : Element → Element → Element)
    (is_open : ℕ → Bool) (config : Config) (p : Proposer) where
  -- The block is in the block store and in the tree, which has its root.
  pub record Committed (now : ℕ) (block : Block) (v : View (block_format_ops codec))
      (s : NodeShared D) : Type 0 where
    pub height_u64 : height_of block < 2 ^ 64
    pub stored : Shows (block_format_ops codec) db s.block_store (
        view_set
          (block_format_ops codec)
          v
          (stored_block db codec merge p.txn_hash is_open now block height_u64))
    pub valid : IsValid merge config.tree_depth s.notes_tree
    pub root : root_hash merge s.notes_tree ≡ block.content.state.root_hash

  again-injective :
      {s s' : NodeShared D} {a b : List ℕ} → ◌≡◌ {A = TickRound D} (again s a) (again s' b) → s ≡ s'
  again-injective q = cc

  after_commit-again :
      (r : (NodeShared D × List ℕ) × Outcome) (s' : NodeShared D) (sent : List ℕ)
      → after_commit db codec merge is_open config p r ≡ again s' sent
      → (r.1 ≡ committed) × (r.0.0 ≡ s')
  after_commit-again ((s, a), committed) s' sent q = (refl, again-injective q)
  after_commit-again ((s, a), failed e) s' sent q = absurd (cc)
  after_commit-again ((s, a), panicked) s' sent q = absurd (cc)

  module _ (now : ℕ) (block : Block) (s s' : NodeShared D) (sent : List ℕ)
      (v : View (block_format_ops codec))
      (good : any (λ h. h == height_of block) config.bad_blocks ≡ false)
      (valid : IsValid merge config.tree_depth s.notes_tree)
      (shows : Shows (block_format_ops codec) db s.block_store v) where
    commit_block-Committed :
        validate merge p.verify p.txn_hash config.tree_depth block.content config.mode
            (stored_roots db codec merge p.txn_hash is_open s.block_store)
            s.notes_tree
          ≡ ok tt
        → (b : Bool) (q : ltb (height_of block) (2 ^ 64) ≡ b)
        → commit_block db codec merge is_open config p now block
            (record s { block_cache = confirm (height_of block) s.block_cache })
            b
            q
          ≡ again s' sent
        → Committed now block v s'
    commit_block-Committed passed true q h =
        let s1 = record s { block_cache = confirm (height_of block) s.block_cache } in
        let u = ltb→lt (height_of block) (2 ^ 64) q in
        let r = commit_proposal db codec merge p.txn_hash is_open config now block u s1 in
        let (done, same) = after_commit-again r s' sent h in
        elim (commit_proposal-CommitEnd db codec merge p.verify p.txn_hash is_open config now block
          u s1 v config.mode (stored_roots db codec merge p.txn_hash is_open s.block_store) valid
          passed good shows) [
            | commits e stored tree root gone ↦
                subst (Committed now block v) same
                  (record { height_u64 = u; stored = stored; valid = tree; root = root })
            | stops n stored tree pool ↦ absurd (n done)
          ]
    commit_block-Committed passed false q h = absurd (cc)

    after_validation_of-Committed :
        (r : Result (Unit {0}))
        → validation db codec merge is_open config p s block ≡ r
        → after_validation_of db codec merge is_open config p now block s r ≡ again s' sent
        → ((s'.notes_tree ≡ s.notes_tree) × (s'.block_store ≡ s.block_store))
          ⊎ Committed now block v s'
    after_validation_of-Committed (ok t) n h =
        elim ((validate_block_iff merge p.verify p.txn_hash p.signer p.block_hash
            p.validators_for_height config.tree_depth config.bad_blocks config.mode
            (stored_roots db codec merge p.txn_hash is_open s.block_store) s.notes_tree block).0
          n) [
            | inl bad ↦ absurd (differ bad good)
            | inr (leader, l, signed, passed) ↦ inr (
                commit_block-Committed
                  ((validate_iff merge p.verify p.txn_hash config.tree_depth block.content
                      config.mode (stored_roots db codec merge p.txn_hash is_open s.block_store)
                      s.notes_tree).1
                    passed)
                  _ refl h)
          ]
      where
        differ : {b : Bool} → b ≡ true → b ≡ false → ⊥
        differ x y = cc
    after_validation_of-Committed (err e) n h = inl (
      ap (λ (x : NodeShared D). x.notes_tree) (sym (again-injective h)),
      ap (λ (x : NodeShared D). x.block_store) (sym (again-injective h)),
    )
    after_validation_of-Committed panics n h = absurd (cc)

    -- A round that goes on, with a next block in the cache that is not one of the bad blocks:
    -- either the block is refused, and the tree and the block store are as before, or it is
    -- committed.
    pub commit_round-Committed :
        get_next_commit_block s.block_cache ≡ some block
        → commit_round db codec merge is_open config p now s ≡ again s' sent
        → ((s'.notes_tree ≡ s.notes_tree) × (s'.block_store ≡ s.block_store))
          ⊎ Committed now block v s'
    unfolding commit_round
    commit_round-Committed next h =
        after_validation_of-Committed _ refl (rw (next, commit_round) at h)
