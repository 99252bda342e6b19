-- ===== src/Doomslug/Tracker/Accounts.antt =====
-- The stakes that a tracker of pkg/doomslug/src/doomslug.rs has counted are those of its witnesses.
use tempo_zk_rollup.Base.{
  ℕ, ◌+◌, ◌≡◌, refl, inl, inr, true, false, List, [], ◌∷◌, ◌==◌, arith, Bool-cases, subst, ==→eq,
}
use tempo_zk_rollup.Base.HashMap
use tempo_zk_rollup.Base.HashMap.{nat_eq, AllPairs}
use tempo_zk_rollup.Doomslug.Approval.{Address, Balance}
use tempo_zk_rollup.Doomslug.Tracker.{u128, Stakes, sum_this, sum_next, stakes_of}

-- One stake of the two epochs' is chosen by `pick`, so that each lemma serves both.
abbrev pub Pick : Type 0
Pick = Stakes → Balance

-- The stake of all accounts, and that of the witnesses, with nothing wrapped.
abbrev pub total : Pick → List (Address × Stakes) → ℕ
total pick [] = 0
total pick ((a, s) ∷ m) = pick s + total pick m

abbrev pub approved : {W : Type 0} → Pick → List (Address × Stakes) → List (Address × W) → ℕ
approved pick m [] = 0
approved pick m ((a, w) ∷ ws) = pick (stakes_of m a) + approved pick m ws

-- No key stands twice.
abbrev pub IsMap : {V : Type 0} → List (Address × V) → Type 0
IsMap [] = Unit
IsMap ((a, v) ∷ m) = (HashMap.contains_key a m ≡ false) × IsMap m

pub contains_key-remove :
    {V : Type 0} (a k : Address) (m : List (Address × V))
    → HashMap.contains_key a m ≡ false
    → HashMap.contains_key a (HashMap.remove k m) ≡ false
contains_key-remove a k [] h = refl
contains_key-remove a k ((j, v) ∷ m) h = ground (arith, contains_key-remove a k m)

pub IsMap-remove :
    {V : Type 0} (k : Address) (m : List (Address × V)) → IsMap m → IsMap (HashMap.remove k m)
IsMap-remove k [] h = tt
IsMap-remove k ((j, v) ∷ m) h = ground (arith, IsMap-remove k m h.1, contains_key-remove j k m h.0)

pub contains_key-insert_other :
    {V : Type 0} (a k : Address) (v : V) (m : List (Address × V))
    → (k == a) ≡ false
    → HashMap.contains_key a m ≡ false
    → HashMap.contains_key a (HashMap.insert k v m) ≡ false
contains_key-insert_other a k v [] n h = ground arith
contains_key-insert_other a k v ((j, w) ∷ m) n h =
    ground (arith, contains_key-insert_other a k v m n)

pub IsMap-insert :
    {V : Type 0} (k : Address) (v : V) (m : List (Address × V))
    → IsMap m
    → IsMap (HashMap.insert k v m)
IsMap-insert k v [] h = (refl, tt)
IsMap-insert k v ((j, w) ∷ m) h =
    ground (arith, IsMap-insert k v m h.1, contains_key-insert_other j k v m)

-- A new witness adds its stake, and a removed one takes it away.
pub approved-insert :
    {W : Type 0} (pick : Pick) (m : List (Address × Stakes)) (k : Address) (w : W)
    (ws : List (Address × W))
    → HashMap.contains_key k ws ≡ false
    → approved pick m (HashMap.insert k w ws) ≡ approved pick m ws + pick (stakes_of m k)
approved-insert pick m k w [] h = omega arith
approved-insert pick m k w ((j, x) ∷ ws) h = ground (arith, approved-insert pick m k w ws)

pub approved-absent :
    {W : Type 0} (pick : Pick) (m : List (Address × Stakes)) (k : Address) (ws : List (Address × W))
    → HashMap.contains_key k ws ≡ false
    → approved pick m (HashMap.remove k ws) ≡ approved pick m ws
approved-absent pick m k [] h = refl
approved-absent pick m k ((j, x) ∷ ws) h = ground (arith, approved-absent pick m k ws)

pub approved-remove :
    {W : Type 0} (pick : Pick) (m : List (Address × Stakes)) (k : Address) (ws : List (Address × W))
    → IsMap ws
    → HashMap.contains_key k ws ≡ true
    → approved pick m ws ≡ approved pick m (HashMap.remove k ws) + pick (stakes_of m k)
approved-remove pick m k [] h c = cc
approved-remove pick m k ((j, x) ∷ ws) h c = elim (Bool-cases (j == k)) [
  | inl e ↦
      let same : j ≡ k = ==→eq j k e in
      rw (e, same)
        (omega (
          arith,
          approved-absent pick m k ws (subst (λ i. HashMap.contains_key i ws ≡ false) same h.0),
        ))
  | inr e ↦ rw e (omega (arith, approved-remove pick m k ws h.1 (rw e at c)))
]

pub sum_this-total : (m : List (Address × Stakes)) → sum_this m ≡ u128 (total (λ s. s.0) m)
sum_this-total [] = refl
sum_this-total ((a, s) ∷ m) = omega (arith, sum_this-total m)

pub sum_next-total : (m : List (Address × Stakes)) → sum_next m ≡ u128 (total (λ s. s.1) m)
sum_next-total [] = refl
sum_next-total ((a, s) ∷ m) = omega (arith, sum_next-total m)
