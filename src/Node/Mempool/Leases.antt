-- ===== src/Node/Mempool/Leases.antt =====
-- What `lease_batch` of pkg/node/src/mempool.rs leases.
use tempo_zk_rollup.Base.{
  ℕ, ◌+◌, ◌≤◌, ◌≡◌, refl, sym, ap, ◌∙◌, true, ◌||◌, List, [], ◌++◌, some, length, map, All, max,
  arith, subst,
}
use tempo_zk_rollup.Base.HashMap
use tempo_zk_rollup.Base.HashMap.{Eq}
use tempo_zk_rollup.Node.Mempool.{MempoolState, Leasing, member, keys_of, lease_batch}
use tempo_zk_rollup.Node.Mempool.Loop.{count, count-append, IsConflictFree, batch_loop-Looped}

module _ {Key Txn Lease Change : Type 0} ⦃ek : Eq Key⦄ ⦃el : Eq Lease⦄ ⦃ec : Eq Change⦄ where
  -- What a batch is: no two transactions of it change the same thing, each is that of its key,
  -- there are no more than asked for (but one where none is asked for), every key is in the lease
  -- or in the pool as often as it was in the pool, and the lease has got just the keys taken.
  pub record IsBatch (lease : Lease) (max_count : ℕ) (s s' : MempoolState Key Txn Lease Change)
      (batch : List (Key × Txn)) : Type 0 where
    pub apart : IsConflictFree s.txns [] batch
    pub bound : length batch ≤ max 1 max_count
    pub kept : (k : Key) → count k s'.pool + count k (map (λ x. x.0) batch) ≡ count k s.pool
    pub leased :
        (k : Key)
        → member k (keys_of lease s'.leased)
          ≡ (member k (keys_of lease s.leased) || member k (map (λ x. x.0) batch))
    pub same_txns : s'.txns ≡ s.txns

  -- Where every key of the pool has a transaction, `lease_batch` does not panic. No two
  -- transactions that it gives change the same thing, and each is that of its key; there are at
  -- most as many as asked for, or one where none is asked for; every key is in the pool or the
  -- batch as often as it was in the pool; the lease has got just the keys of the batch; and the
  -- transactions stay.
  pub lease_batch-IsBatch :
      (lease : Lease) (max_count : ℕ) (s : MempoolState Key Txn Lease Change)
      → All (λ k. HashMap.contains_key k s.txns ≡ true) s.pool
      → (s' : MempoolState Key Txn Lease Change) × (batch : List (Key × Txn)) × (lease_batch lease
            max_count s
          ≡ some (s', batch))
        × IsBatch lease max_count s s' batch
  unfolding lease_batch
  lease_batch-IsBatch lease max_count s known =
      let start : Leasing Key Txn Lease Change = record {
        taken = [];
        discard = [];
        conflict_check = [];
        leases = s.leased;
      } in
      let (l, rest, p, r) = batch_loop-Looped lease max_count s.txns s.pool start known in
      (
        record s { pool = rest ++ l.discard; leased = l.leases },
        l.taken,
        rw (p, lease_batch),
        record {
          apart = subst (IsConflictFree s.txns []) (sym r.taken) r.apart;
          bound = r.bound (omega arith);
          kept = λ k. omega (
            arith,
            r.kept k,
            count-append k rest l.discard,
            ap (λ (b : List (Key × Txn)). count k (map (λ x. x.0) b)) r.taken,
          );
          leased = λ k.
              r.leased k
              ∙ ap
                  (λ (b : List (Key × Txn)).
                    member k (keys_of lease s.leased) || member k (map (λ x. x.0) b))
                  (sym r.taken);
          same_txns = refl;
        },
      )
