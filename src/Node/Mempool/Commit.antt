-- ===== src/Node/Mempool/Commit.antt =====
-- What `commit` of pkg/node/src/mempool.rs leaves.
use tempo_zk_rollup.Base.{
  ◌+◌, ◌≡◌, refl, ap, ◌∙◌, inl, inr, false, List, [], ◌∷◌, none, map, if◌then◌else◌, arith,
  Option-cases,
}
use tempo_zk_rollup.Base.HashMap
use tempo_zk_rollup.Base.HashMap.{Eq}
use tempo_zk_rollup.Node.Mempool.{
  MempoolState, member, set_remove, remove_first, push_all, keys_of, unlease, free, commit_key,
  commit_keys, commit,
}
use tempo_zk_rollup.Node.Mempool.Loop.{count}

module _ {K : Type 0} ⦃e : Eq K⦄ where
  count-push_all :
      (k : K) (ks pool : List K) → count k (push_all ks pool) ≡ count k ks + count k pool
  count-push_all k [] pool = omega arith
  count-push_all k (j ∷ ks) pool = ground (arith, count-push_all k ks (j ∷ pool))

  count-remove_first :
      (k j : K) (pool : List K) → e.beq j k ≡ false → count k (remove_first j pool) ≡ count k pool
  count-remove_first k j [] n = refl
  count-remove_first k j (i ∷ pool) n =
      ground (arith, count-remove_first k j pool n, e.beq_iff i j, e.beq_iff j k, e.beq_iff i k)

  count-set_remove :
      (k j : K) (ks : List K) → e.beq j k ≡ false → count k (set_remove j ks) ≡ count k ks
  count-set_remove k j [] n = refl
  count-set_remove k j (i ∷ ks) n =
      ground (arith, count-set_remove k j ks n, e.beq_iff i j, e.beq_iff j k, e.beq_iff i k)

module _ {Key Lease : Type 0} ⦃ek : Eq Key⦄ ⦃el : Eq Lease⦄ where
  count-unlease :
      (lease : Lease) (k key : Key) (m : List (Lease × List Key))
      → ek.beq key k ≡ false
      → count k (keys_of lease (unlease lease key m)) ≡ count k (keys_of lease m)
  count-unlease lease k key m n = elim (Option-cases (HashMap.lookup lease m)) [
    | inl e ↦ rw (e, unlease) refl
    | inr (ks, e) ↦
        rw
          (
            e,
            unlease,
            HashMap.lookup-insert lease lease (set_remove key ks) m,
            (el.beq_iff lease lease).1 refl,
            keys_of,
          )
          (count-set_remove k key ks n)
  ]

module _ {Key Txn Lease Change : Type 0} ⦃ek : Eq Key⦄ ⦃el : Eq Lease⦄ ⦃ec : Eq Change⦄ where
  commit_keys_lem :
      {R : Type 0} (lease : Lease) (done : List (Key × R)) (s : MempoolState Key Txn Lease Change)
      (k : Key)
      → (HashMap.lookup k (commit_keys lease done s).0.txns
          ≡ (if member k (map (λ x. x.0) done) then none else HashMap.lookup k s.txns))
        × (member k (map (λ x. x.0) done) ≡ false
            → (count k (commit_keys lease done s).0.pool ≡ count k s.pool)
              × (count k (keys_of lease (commit_keys lease done s).0.leased)
                  ≡ count k (keys_of lease s.leased)))
  unfolding commit_keys commit_key
  commit_keys_lem lease [] s k = (refl, λ h. (refl, refl))
  commit_keys_lem lease ((key, r) ∷ done) s k =
      let rest = commit_keys_lem lease done (commit_key lease key s) k in
      (
        ground (arith, rest.0, HashMap.lookup-remove key k s.txns),
        λ h.
            let (p, q) = rest.1 (ground arith) in
            (
              p ∙ count-remove_first k key s.pool (ground arith),
              q ∙ count-unlease lease k key s.leased (ground arith),
            ),
      )

  -- After `commit` the committed keys have no transactions and all others keep theirs, the
  -- lease is gone, and a key that was not committed is in the pool as often as it was in the
  -- pool and the lease.
  pub commit_lem :
      {R : Type 0} (lease : Lease) (done : List (Key × R)) (s : MempoolState Key Txn Lease Change)
      (k : Key)
      → (HashMap.lookup k (commit lease done s).0.txns
          ≡ (if member k (map (λ x. x.0) done) then none else HashMap.lookup k s.txns))
        × (HashMap.contains_key lease (commit lease done s).0.leased ≡ false)
        × (member k (map (λ x. x.0) done) ≡ false
            → count k (commit lease done s).0.pool
              ≡ count k s.pool + count k (keys_of lease s.leased))
  unfolding commit free
  commit_lem lease done s k =
      let (p, q) = commit_keys_lem lease done s k in
      let s' = (commit_keys lease done s).0 in
      (
        p,
        HashMap.contains_key-remove lease lease s'.leased
            ∙ ap (λ b. if b then false else HashMap.contains_key lease s'.leased)
                ((el.beq_iff lease lease).1 refl),
        λ h.
            let (a, b) = q h in
            omega (arith, a, b, count-push_all k (keys_of lease s'.leased) s'.pool),
      )
