-- ===== src/Smirk/Tree/Valid.antt =====
-- The well-formed trees of pkg/smirk/src/tree/mod.rs, and what a batch puts where.
use tempo_zk_rollup.Base.{
  ℕ, ◌-◌, ◌<◌, ◌≡◌, refl, ◌⊎◌, inl, inr, true, false, ◌||◌, List, [], ◌∷◌, length, any, All,
  All-imp, ◌==◌, arith, Bool-cases,
}
use tempo_zk_rollup.Base.TreeMap
use tempo_zk_rollup.Smirk.Bits.{Element, Bits, null_hash, lsb, bits_eq, bits_eq→eq, bits_eq_refl}
use tempo_zk_rollup.Smirk.Contents.{element_at, HasHeight, put_over}
use tempo_zk_rollup.Smirk.Recalculate.{IsHashed}
use tempo_zk_rollup.Smirk.Sort.{IsDistinct}
use tempo_zk_rollup.Smirk.Batch.{contains, placed, paths}
use tempo_zk_rollup.Smirk.Tree.{Tree, new, insert_entries}

module _ {V : Type 0} where
  -- The element at a path is null, or one of the entries, at the path of its own bits.
  abbrev pub IsKnown : ℕ → List (Element × V) → Bits → Element → Type 0
  IsKnown h entries p e =
      (e ≡ null_hash) ⊎ ((TreeMap.contains_key e entries ≡ true) × (lsb e h ≡ p))

  module _ (merge : Element → Element → Element) where
    -- A tree of depth `depth`: its nodes have that height and right hashes, each entry stands at
    -- its path, and nothing else stands anywhere.
    pub record IsValid (depth : ℕ) (t : Tree V) : Type 0 where
      pub height : HasHeight (depth - 1) t.node
      pub hashed : IsHashed merge t.node
      pub held : All (λ x. element_at t.node (lsb x.0 (depth - 1)) ≡ x.0) t.entries
      pub known :
          (p : Bits) → length p ≡ depth - 1 → IsKnown (depth - 1) t.entries p (element_at t.node p)

    pub new-IsValid : (depth : ℕ) → 0 < depth → IsValid depth (new depth)
    unfolding new
    new-IsValid depth d = record {
      height = omega arith;
      hashed = tt;
      held = tt;
      known = λ p l. inl refl;
    }

  -- Every entry's path is one of the paths.
  pub contains_self :
      (depth : ℕ) (xs : List (Element × V))
      → All (λ x. contains (paths depth xs) (lsb x.0 (depth - 1)) ≡ true) xs
  contains_self depth [] = tt
  contains_self depth (x ∷ xs) = (
    rw (bits_eq_refl (lsb x.0 (depth - 1))),
    All-imp xs (λ y h. later y h) (contains_self depth xs),
  )
    where
      later :
          (y : Element × V)
          → contains (paths depth xs) (lsb y.0 (depth - 1)) ≡ true
          → contains (paths depth (x ∷ xs)) (lsb y.0 (depth - 1)) ≡ true
      later y h = ground arith

  -- Where no path of the batch leads, the old element stays.
  pub put_over-apart :
      (depth : ℕ) (xs : List (Element × V)) (f : Bits → Element) (p : Bits)
      → contains (paths depth xs) p ≡ false
      → put_over 0 (placed depth xs) f p ≡ f p
  put_over-apart depth [] f p h = refl
  put_over-apart depth (x ∷ xs) f p h = ground (arith, put_over-apart depth xs f p)

  -- At its own path each element of the batch stands.
  pub put_over_self :
      (depth : ℕ) (xs : List (Element × V)) (f : Bits → Element)
      → IsDistinct (placed depth xs)
      → All (λ x. put_over 0 (placed depth xs) f (lsb x.0 (depth - 1)) ≡ x.0) xs
  put_over_self depth [] f d = tt
  put_over_self depth (x ∷ xs) f d =
      (rw (bits_eq_refl (lsb x.0 (depth - 1))), others xs d.0 (put_over_self depth xs f d.1))
    where
      others :
          (ys : List (Element × V))
          → All (λ y. bits_eq (lsb x.0 (depth - 1)) y.1 ≡ false) (placed depth ys)
          → All (λ y. put_over 0 (placed depth xs) f (lsb y.0 (depth - 1)) ≡ y.0) ys
          → All (λ y. put_over 0 (placed depth (x ∷ xs)) f (lsb y.0 (depth - 1)) ≡ y.0) ys
      others [] a h = tt
      others (y ∷ ys) a h = (rw (a.0) h.0, others ys a.1 h.1)

  -- What a batch puts at a path: an element of the batch with that path, or nothing new.
  abbrev pub Puts : ℕ → List (Element × V) → (Bits → Element) → Bits → Type 0
  Puts depth xs f p =
      ((e : Element) × (put_over 0 (placed depth xs) f p ≡ e)
        × (any (λ x. x.0 == e) xs ≡ true)
        × (lsb e (depth - 1) ≡ p))
      ⊎ (put_over 0 (placed depth xs) f p ≡ f p)

  pub put_over_cases :
      (depth : ℕ) (xs : List (Element × V)) (f : Bits → Element) (p : Bits) → Puts depth xs f p
  put_over_cases depth [] f p = inr refl
  put_over_cases depth (x ∷ xs) f p =
      go (put_over_cases depth xs f p) (Bool-cases (bits_eq (lsb x.0 (depth - 1)) p))
    where
      go :
          Puts depth xs f p
          → (bits_eq (lsb x.0 (depth - 1)) p ≡ true) ⊎ (bits_eq (lsb x.0 (depth - 1)) p ≡ false)
          → Puts depth (x ∷ xs) f p
      go ih (inl h) = inl (x.0, rw h, ground arith, bits_eq→eq _ p h)
      go (inl (e, q, a, l)) (inr h) = inl (e, rw h q, ground arith, l)
      go (inr q) (inr h) = inr (rw h q)

  pub contains_key-insert_entries :
      (m es : List (Element × V)) (e : Element)
      → TreeMap.contains_key e (insert_entries m es)
        ≡ (any (λ x. x.0 == e) es || TreeMap.contains_key e m)
  contains_key-insert_entries m [] e = refl
  contains_key-insert_entries m ((k, v) ∷ es) e = ground (
    arith,
    contains_key-insert_entries (TreeMap.insert k v m) es e,
    TreeMap.contains_key-insert k e v m,
  )

  pub All-insert_entries :
      (P : Element → Type 0) (m es : List (Element × V))
      → All (λ x. P x.0) m
      → All (λ x. P x.0) es
      → All (λ x. P x.0) (insert_entries m es)
  All-insert_entries P m [] h k = h
  All-insert_entries P m ((e, v) ∷ es) h k =
      All-insert_entries P (TreeMap.insert e v m) es (TreeMap.All-insert P e v m k.0 h) k.1
