-- ===== src/Examples/Pools.antt =====
-- Runs of the pools of pkg/node at concrete inputs: a mempool of four transactions, of which two
-- change the same thing, and a cache of two blocks.
use tempo_zk_rollup.Base.{
  ℕ, ◌+◌, ◌≤◌, ◌<◌, ◌≡◌, refl, ◌↔◌, Bool, true, false, ◌&&◌, List, [], ◌∷◌, none, some, map, leb,
  if◌then◌else◌,
}
use tempo_zk_rollup.Base.TreeMap
use tempo_zk_rollup.Base.HashMap
use tempo_zk_rollup.Base.HashMap.{nat_eq}
use tempo_zk_rollup.Doomslug.Approval.{BlockHeight, CryptoHash}
use tempo_zk_rollup.Node.Validate.{Block}
use tempo_zk_rollup.Node.Mempool.{MempoolTxn, MempoolState, lease_batch, commit, member, keys_of}
use tempo_zk_rollup.Node.Mempool.Loop.{count}
use tempo_zk_rollup.Node.Mempool.Leases.{IsBatch, lease_batch-IsBatch}
use tempo_zk_rollup.Node.Mempool.Commit.{commit_lem}
use tempo_zk_rollup.Node.BlockCache.{BlockCache, confirm, is_out_of_sync, last}
use tempo_zk_rollup.Node.BlockCache
use tempo_zk_rollup.Node.BlockCache.Heights.{confirm-heights, is_out_of_sync_iff}

abbrev mempool_txn : ℕ → List ℕ → MempoolTxn ℕ ℕ
mempool_txn t changes = record { txn = t; sender = none; changes = changes }

abbrev mempool : MempoolState ℕ ℕ ℕ ℕ
mempool = record {
  txns =
      (1, mempool_txn 10 (100 ∷ []))
      ∷ (2, mempool_txn 20 (100 ∷ 200 ∷ []))
      ∷ (3, mempool_txn 30 (300 ∷ []))
      ∷ (4, mempool_txn 40 [])
      ∷ [];
  pool = 1 ∷ 2 ∷ 3 ∷ [];
  leased = (8, 4 ∷ []) ∷ [];
}

abbrev done : List (ℕ × Bool)
done = (1, true) ∷ []

lease_batch-IsBatch_example :
    (s' : MempoolState ℕ ℕ ℕ ℕ) × (batch : List (ℕ × ℕ)) × (lease_batch 7 2 mempool
      ≡ some (s', batch))
    × IsBatch 7 2 mempool s' batch
lease_batch-IsBatch_example = lease_batch-IsBatch 7 2 mempool (refl, (refl, (refl, tt)))

commit_lem_example :
    (HashMap.lookup 4 (commit 8 done mempool).0.txns
      ≡ (if member 4 (map (λ x. x.0) done) then none else HashMap.lookup 4 mempool.txns))
    × (HashMap.contains_key 8 (commit 8 done mempool).0.leased ≡ false)
    × (member 4 (map (λ x. x.0) done) ≡ false
        → count 4 (commit 8 done mempool).0.pool
          ≡ count 4 mempool.pool + count 4 (keys_of 8 mempool.leased))
commit_lem_example = commit_lem 8 done mempool 4

abbrev block_at : BlockHeight → Block
block_at h = record {
  content = record {
    header = record {
      height = h;
      last_block_hash = 0;
      epoch_id = 0;
      last_final_block_hash = 0;
      approvals = [];
    };
    state = record { root_hash = 0; txns = [] };
  };
  signature = 0;
}

abbrev cache : BlockCache
cache =
    BlockCache.insert (λ b. b.content.header.height + 500) (block_at 3)
      (BlockCache.new (λ b. b.content.header.height + 500) (block_at 2) 10)

confirm-heights_example :
    TreeMap.contains_key 2 (confirm 3 cache).block_hash_heights
    ≡ (leb 3 2 && TreeMap.contains_key 2 cache.block_hash_heights)
confirm-heights_example = confirm-heights 3 cache 2

is_out_of_sync_iff_example : (is_out_of_sync cache ≡ some false) ↔ (
    (x : BlockHeight × CryptoHash) × (last cache.block_hash_heights ≡ some x)
    × (cache.max_height ≤ x.0)
    × ((j : BlockHeight)
        → cache.height < j
        → j ≤ cache.max_height
        → TreeMap.contains_key j cache.block_hash_heights ≡ true))
is_out_of_sync_iff_example = is_out_of_sync_iff cache
