-- ===== src/Node/Tick.antt =====
-- The commits of a tick: `tick` of pkg/node/src/node/tick_worker.rs where the node does not lead.
pub mod Committed
use tempo_zk_rollup.Base.{
  ℕ, ◌^◌, ◌≡◌, refl, Bool, true, false, List, [], Option, none, some, ltb, ltb→lt,
}
use tempo_zk_rollup.Base.HashMap.{nat_eq}
use tempo_zk_rollup.Smirk.Bits.{Element}
use tempo_zk_rollup.BlockStore.Db.{RocksDb}
use tempo_zk_rollup.Node.Utxo.{
  Error, Result, ok, err, panics, Mode, validator, node, prover, mock_prover,
}
use tempo_zk_rollup.Node.Validate.{Block}
use tempo_zk_rollup.Node.BlockCache.{
  get_next_commit_block, remove, confirm, height_of, is_out_of_sync,
}
use tempo_zk_rollup.Node.State.{Config, NodeShared, Codec}
use tempo_zk_rollup.Node.Proposal.{Outcome, committed, failed, panicked, commit_proposal}
use tempo_zk_rollup.Node.Proposal.Create.{Proposer, validation}

-- How a round of the loop ends, with the state and those that were sent the block.
pub data TickRound (D : Type 0) : Type 0 where
  again : NodeShared D → List ℕ → TickRound D
  idle : NodeShared D → TickRound D
  stops : NodeShared D → Error → TickRound D
  tick_panics : NodeShared D → TickRound D

-- When the next tick is, in seconds from now; `none` is when it is woken.
abbrev pub wait_seconds : Mode → Bool → Option ℕ
wait_seconds m true = some 5
wait_seconds validator false = some 60
wait_seconds node false = none
wait_seconds prover false = none
wait_seconds mock_prover false = none

module _ {D : Type 0} (db : RocksDb D) (codec : Codec) (merge : Element → Element → Element)
    (is_open : ℕ → Bool) (config : Config) (p : Proposer) where
  abbrev pub after_commit : (NodeShared D × List ℕ) × Outcome → TickRound D
  after_commit ((s, sent), committed) = again s sent
  after_commit ((s, sent), failed e) = stops s e
  after_commit ((s, sent), panicked) = tick_panics s

  -- The commit of a block; all heights are `u64`, so that the other case does not arise.
  abbrev pub commit_block :
      ℕ
      → (block : Block) → NodeShared D
      → (b : Bool) → ltb (height_of block) (2 ^ 64) ≡ b
      → TickRound D
  commit_block now block s true q = after_commit (
      commit_proposal db codec merge p.txn_hash is_open config now block
        (ltb→lt (height_of block) (2 ^ 64) q) s)
  commit_block now block s false q = tick_panics s

  -- What a round does with its block, by the answer of `validate_block`.
  abbrev pub after_validation_of : ℕ → Block → NodeShared D → Result (Unit {0}) → TickRound D
  after_validation_of now block s (ok t) =
      commit_block now block (record s { block_cache = confirm (height_of block) s.block_cache })
        (ltb (height_of block) (2 ^ 64)) refl
  after_validation_of now block s (err e) =
      again (record s { block_cache = remove (p.block_hash block) s.block_cache }) []
  after_validation_of now block s panics = tick_panics s

  -- A round of the loop that commits the next block of the cache.
  unfoldable pub commit_round : ℕ → NodeShared D → TickRound D
  unfolding get_next_commit_block commit_proposal confirm remove
  commit_round now s = elim (get_next_commit_block s.block_cache) [
    | none ↦ idle s
    | some block ↦
        after_validation_of now block s (validation db codec merge is_open config p s block)
  ]

  -- The end of a tick whose loop has become idle: whether the sync worker is told, and the wait;
  -- `none` is a panic.
  unfoldable pub end_of_tick : NodeShared D → Option (Bool × Option ℕ)
  unfolding is_out_of_sync
  end_of_tick s = elim (is_out_of_sync s.block_cache) [
    | none ↦ none
    | some behind ↦ some (behind, wait_seconds config.mode behind)
  ]
