-- ===== src/Node/Mempool/Loop.antt =====
-- The loop of `lease_batch` of pkg/node/src/mempool.rs.
use mathlib.Core.List.{append-nil, append_assoc}
use tempo_zk_rollup.Base.{
  ℕ, suc, ◌+◌, ◌≤◌, ◌<◌, ◌≡◌, refl, sym, ap, ◌∙◌, ◌⊎◌, inl, inr, Bool, true, false, ◌||◌, List, [],
  ◌∷◌, ◌++◌, Option, none, some, length, length-append, map, any, All, leb, if◌then◌else◌, max,
  arith, Bool-cases, Option-cases,
}
use tempo_zk_rollup.Base.HashMap
use tempo_zk_rollup.Base.HashMap.{Eq}
use tempo_zk_rollup.Node.Mempool.{
  MempoolTxn, Leasing, member, set_insert, keys_of, lease_insert, take_txn, batch_loop,
}

module _ {K : Type 0} ⦃e : Eq K⦄ where
  -- How many times a key stands in a list.
  abbrev pub count : K → List K → ℕ
  count k [] = 0
  count k (j ∷ ks) = let rest = count k ks in if e.beq j k then suc rest else rest

  pub count-append : (k : K) (xs ys : List K) → count k (xs ++ ys) ≡ count k xs + count k ys
  count-append k [] ys = omega arith
  count-append k (x ∷ xs) ys = ground (arith, count-append k xs ys)

  beq_refl : (k : K) → e.beq k k ≡ true
  beq_refl k = (e.beq_iff k k).1 refl

  member-snoc : (k j : K) (ks : List K) → member k (ks ++ j ∷ []) ≡ (e.beq j k || member k ks)
  member-snoc k j [] = refl
  member-snoc k j (x ∷ ks) = ground (arith, member-snoc k j ks)

  member-set_insert :
      (k j : K) (ks : List K) → member k (set_insert j ks) ≡ (e.beq j k || member k ks)
  member-set_insert k j ks = elim (Bool-cases (member j ks)) [
    | inl h ↦ rw h (same (Bool-cases (e.beq j k)) h)
    | inr h ↦ rw h (member-snoc k j ks)
  ]
    where
      same :
          ((e.beq j k ≡ true) ⊎ (e.beq j k ≡ false))
          → member j ks ≡ true
          → member k ks ≡ (e.beq j k || member k ks)
      same (inl b) h = ground (arith, e.beq_iff j k)
      same (inr b) h = rw b

module _ {Key Txn Change : Type 0} ⦃ek : Eq Key⦄ ⦃ec : Eq Change⦄ where
  -- No transaction changes what one before it, or `seen`, changes.
  abbrev pub IsConflictFree :
      List (Key × MempoolTxn Txn Change) → List Change → List (Key × Txn) → Type 0
  IsConflictFree txns seen [] = Unit
  IsConflictFree txns seen ((k, t) ∷ rest) =
      (m : MempoolTxn Txn Change) × (HashMap.lookup k txns ≡ some m)
      × (m.txn ≡ t)
      × (any (λ c. member c seen) m.changes ≡ false)
      × IsConflictFree txns (seen ++ m.changes) rest

module _ {Key Lease : Type 0} ⦃ek : Eq Key⦄ ⦃el : Eq Lease⦄ where
  member-lease_insert :
      (lease : Lease) (key k : Key) (m : List (Lease × List Key))
      → member k (keys_of lease (lease_insert lease key m))
        ≡ (ek.beq key k || member k (keys_of lease m))
  member-lease_insert lease key k m =
      ap (λ (o : Option (List Key)). member k (elim o [ none ↦ [] | some ks ↦ ks ]))
        (HashMap.lookup-insert lease lease (set_insert key (keys_of lease m)) m
          ∙ ap (λ b. if b then some (set_insert key (keys_of lease m)) else HashMap.lookup lease m)
              (beq_refl lease))
      ∙ member-set_insert k key (keys_of lease m)

module _ {Key Txn Lease Change : Type 0} ⦃ek : Eq Key⦄ ⦃el : Eq Lease⦄ ⦃ec : Eq Change⦄ where
  -- What the loop does to the pool and its variables.
  pub record Looped (lease : Lease) (max_count : ℕ) (txns : List (Key × MempoolTxn Txn Change))
      (pool : List Key) (l l' : Leasing Key Txn Lease Change) (rest : List Key) : Type 0 where
    pub new : List (Key × Txn)
    pub taken : l'.taken ≡ l.taken ++ new
    pub apart : IsConflictFree txns l.conflict_check new
    pub kept :
        (k : Key)
        → count k rest + count k l'.discard + count k (map (λ x. x.0) new)
          ≡ count k pool + count k l.discard
    pub bound : length l.taken < max 1 max_count → length l'.taken ≤ max 1 max_count
    pub leased :
        (k : Key)
        → member k (keys_of lease l'.leases)
          ≡ (member k (keys_of lease l.leases) || member k (map (λ x. x.0) new))

  -- The loop goes on after a key that it has discarded.
  skipped-Looped :
      (lease : Lease) (max_count : ℕ) (txns : List (Key × MempoolTxn Txn Change)) (key : Key)
      (pool rest : List Key) (l l' : Leasing Key Txn Lease Change)
      → Looped lease max_count txns pool (record l { discard = l.discard ++ key ∷ [] }) l' rest
      → Looped lease max_count txns (key ∷ pool) l l' rest
  skipped-Looped lease max_count txns key pool rest l l' r = record {
    new = r.new;
    taken = r.taken;
    apart = r.apart;
    kept = λ k. ground (arith, r.kept k, count-append k l.discard (key ∷ []));
    bound = r.bound;
    leased = r.leased;
  }

  -- The loop stops at a transaction that it has taken, or goes on after it.
  full-Looped :
      (lease : Lease) (max_count : ℕ) (txns : List (Key × MempoolTxn Txn Change)) (key : Key)
      (pool : List Key) (l : Leasing Key Txn Lease Change) (t : MempoolTxn Txn Change)
      → HashMap.lookup key txns ≡ some t
      → any (λ c. member c l.conflict_check) t.changes ≡ false
      → Looped lease max_count txns (key ∷ pool) l (take_txn lease key t l) pool
  full-Looped lease max_count txns key pool l t n apart = record {
    new = (key, t.txn) ∷ [];
    taken = refl;
    apart = (t, n, refl, apart, tt);
    kept = λ k. ground arith;
    bound = λ h. omega (arith, h, length-append l.taken ((key, t.txn) ∷ []));
    leased = λ k. ground (arith, member-lease_insert lease key k l.leases);
  }

  room-Looped :
      (lease : Lease) (max_count : ℕ) (txns : List (Key × MempoolTxn Txn Change)) (key : Key)
      (pool rest : List Key) (l l' : Leasing Key Txn Lease Change) (t : MempoolTxn Txn Change)
      → HashMap.lookup key txns ≡ some t
      → any (λ c. member c l.conflict_check) t.changes ≡ false
      → leb max_count (length (take_txn lease key t l).taken) ≡ false
      → Looped lease max_count txns pool (take_txn lease key t l) l' rest
      → Looped lease max_count txns (key ∷ pool) l l' rest
  room-Looped lease max_count txns key pool rest l l' t n apart room r = record {
    new = (key, t.txn) ∷ r.new;
    taken = r.taken ∙ append_assoc l.taken ((key, t.txn) ∷ []) r.new;
    apart = (t, n, refl, apart, r.apart);
    kept = λ k. ground (arith, r.kept k);
    bound = λ h. r.bound (below max_count _ room);
    leased = λ k. ground (arith, r.leased k, member-lease_insert lease key k l.leases);
  }
    where
      below : (m n : ℕ) → leb m n ≡ false → n < max 1 m
      below m n p = ground arith

  pub batch_loop-Looped :
      (lease : Lease) (max_count : ℕ) (txns : List (Key × MempoolTxn Txn Change)) (pool : List Key)
      (l : Leasing Key Txn Lease Change)
      → All (λ k. HashMap.contains_key k txns ≡ true) pool
      → (l' : Leasing Key Txn Lease Change) × (rest : List Key) × (batch_loop lease max_count txns
            pool l
          ≡ some (l', rest))
        × Looped lease max_count txns pool l l' rest
  unfolding batch_loop
  batch_loop-Looped lease max_count txns [] l known = (
    l,
    [],
    refl,
    record {
      new = [];
      taken = sym (append-nil l.taken);
      apart = tt;
      kept = λ k. ground arith;
      bound = λ h. omega (arith, h);
      leased = λ k. ground arith;
    },
  )
  batch_loop-Looped lease max_count txns (key ∷ pool) l known =
      elim (Option-cases (HashMap.lookup key txns)) [
        | inl n ↦ absurd (both (HashMap.contains_key-none key txns n) known.0)
        | inr (t, n) ↦ elim (Bool-cases (any (λ c. member c l.conflict_check) t.changes)) [
          | inl conflict ↦
              let (l', rest, p, r) =
                batch_loop-Looped lease max_count txns pool
                  (record l { discard = l.discard ++ key ∷ [] }) known.1 in
              (
                l',
                rest,
                rw (n, batch_loop, conflict) p,
                skipped-Looped lease max_count txns key pool rest l l' r,
              )
          | inr apart ↦ elim (Bool-cases (leb max_count (length (take_txn lease key t l).taken))) [
            | inl full ↦ (
              take_txn lease key t l,
              pool,
              rw (n, batch_loop, apart, full),
              full-Looped lease max_count txns key pool l t n apart,
            )
            | inr room ↦
                let (l', rest, p, r) =
                  batch_loop-Looped lease max_count txns pool (take_txn lease key t l) known.1 in
                (
                  l',
                  rest,
                  rw (n, batch_loop, apart, room) p,
                  room-Looped lease max_count txns key pool rest l l' t n apart room r,
                )
          ]
        ]
      ]
    where
      both : {b : Bool} → b ≡ false → b ≡ true → ⊥
      both p q = cc
