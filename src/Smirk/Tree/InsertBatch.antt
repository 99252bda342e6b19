-- ===== src/Smirk/Tree/InsertBatch.antt =====
-- `insert_batch` and `check_collisions` of pkg/smirk/src/tree/batch.rs on well-formed trees.
use tempo_zk_rollup.Base.{
  ℕ, ◌+◌, ◌-◌, ◌≡◌, ◌≢◌, refl, sym, ◌⊎◌, inl, inr, Bool, true, false, ◌||◌, List, [], ◌∷◌, some,
  length, map, any, find, All, All-imp, ◌==◌, arith, Bool-cases, subst,
}
use tempo_zk_rollup.Base.TreeMap
use tempo_zk_rollup.Smirk.Bits.{Element, Bits, null_hash, lsb, length-lsb, bits_eq, bits_eq→eq}
use tempo_zk_rollup.Smirk.Node.{Collision, tree}
use tempo_zk_rollup.Smirk.Contents.{element_at, put_over, IsEntry}
use tempo_zk_rollup.Smirk.Insert.{Fits, IsFree}
use tempo_zk_rollup.Smirk.Sort.{sort_by_bits, All-sort_by_bits, sort_by_bits-Ascending}
use tempo_zk_rollup.Smirk.Batch.{
  Batch, contains, placed, paths, find_element_with_lsb, ok, collides, elements,
}
use tempo_zk_rollup.Smirk.Batch
use tempo_zk_rollup.Smirk.Tree.{Tree, check_keys, check_collisions, contains_element}
use tempo_zk_rollup.Smirk.Tree.Valid.{IsValid, contains_self}

module _ {V : Type 0} where
  -- No path of the batch is the path of an entry of the tree.
  abbrev pub IsApart : ℕ → List (Element × V) → Batch V → Type 0
  IsApart depth m b = All (λ k. contains b.lsbs (lsb k.0 (depth - 1)) ≡ false) m

  -- A reported pair has one path; the first is in the map and the second in the batch.
  abbrev pub IsClash : ℕ → List (Element × V) → Batch V → Collision → Type 0
  IsClash depth m b c =
      (lsb c.inserted (depth - 1) ≡ lsb c.in_tree (depth - 1))
      × (TreeMap.contains_key c.in_tree m ≡ true)
      × (any (λ x. x.0 == c.inserted) b.entries ≡ true)

  find_found :
      (depth : ℕ) (xs : List (Element × V)) (l : Bits)
      → contains (paths depth xs) l ≡ true
      → (e : Element) × (find (λ a. bits_eq (lsb a (depth - 1)) l) (map (λ x. x.0) xs) ≡ some e)
        × (lsb e (depth - 1) ≡ l)
        × (any (λ x. x.0 == e) xs ≡ true)
  find_found depth [] l h = cc
  find_found depth (x ∷ xs) l h = elim (Bool-cases (bits_eq (lsb x.0 (depth - 1)) l)) [
    | inl e ↦ (x.0, rw e, bits_eq→eq _ l e, ground arith)
    | inr e ↦
        let (y, p, q, a) = find_found depth xs l (ground arith) in (y, rw e p, q, ground arith)
  ]

  -- What the loop over the keys reports: with nothing reported, the batch is apart.
  pub check_keys_lem :
      (depth : ℕ) (m : List (Element × V)) (b : Batch V)
      → Batch.IsValid depth b
      → (cs : List Collision) × (check_keys depth m b ≡ ok cs)
        × All (IsClash depth m b) cs
        × (cs ≡ [] → IsApart depth m b)
  unfolding check_keys find_element_with_lsb
  check_keys_lem depth [] b valid = ([], refl, tt, λ e. tt)
  check_keys_lem depth (x ∷ m) b valid =
      let (cs, p, r, a) = check_keys_lem depth m b valid in
      elim (Bool-cases (contains b.lsbs (lsb x.0 (depth - 1)))) [
        | inl c ↦
            let (e, f, l, k) =
              find_found depth b.entries (lsb x.0 (depth - 1))
                (subst (λ t. contains t (lsb x.0 (depth - 1)) ≡ true) valid.tracked c) in
            (
              record { in_tree = x.0; inserted = e; depth = depth; struct_name = tree } ∷ cs,
              rw (c, f, p),
              ((l, ground arith, k), All-imp cs (λ k h. (h.0, later k.in_tree h.1, h.2)) r),
              λ q. absurd (cons≢nil q),
            )
        | inr c ↦
            (cs, rw (c, p), All-imp cs (λ k h. (h.0, later k.in_tree h.1, h.2)) r, λ q. (c, a q))
      ]
    where
      later :
          (k : Element) → TreeMap.contains_key k m ≡ true → TreeMap.contains_key k (x ∷ m) ≡ true
      later k h = ground arith

      cons≢nil : {A : Type 0} {y : A} {ys : List A} → y ∷ ys ≡ [] → ⊥
      cons≢nil q = cc

  -- For a well-formed batch, either `check_collisions` answers `Ok` and no path of the batch is
  -- that of an entry of the tree, or it reports at least one collision, each of an entry of the
  -- tree and one of the batch with the same path.
  pub check_collisions_lem :
      (depth : ℕ) (t : Tree V) (b : Batch V)
      → Batch.IsValid depth b
      → ((check_collisions depth t b ≡ ok tt) × IsApart depth t.entries b)
        ⊎ ((c : Collision) × (cs : List Collision) × (check_collisions depth t b
              ≡ collides (c ∷ cs))
            × All (IsClash depth t.entries b) (c ∷ cs))
  unfolding check_collisions
  check_collisions_lem depth t b valid = go (check_keys_lem depth t.entries b valid)
    where
      go :
          (cs : List Collision) × (check_keys depth t.entries b ≡ ok cs)
            × All (IsClash depth t.entries b) cs
            × (cs ≡ [] → IsApart depth t.entries b)
          → ((check_collisions depth t b ≡ ok tt) × IsApart depth t.entries b)
            ⊎ ((c : Collision) × (cs : List Collision) × (check_collisions depth t b
                  ≡ collides (c ∷ cs))
                × All (IsClash depth t.entries b) (c ∷ cs))
      go ([], p, r, a) = inl (rw p, a refl)
      go (c ∷ cs, p, r, a) = inr (c, cs, rw p, r)

  pub apart_path :
      (depth : ℕ) (m : List (Element × V)) (b : Batch V) (e : Element) (p : Bits)
      → IsApart depth m b
      → TreeMap.contains_key e m ≡ true
      → lsb e (depth - 1) ≡ p
      → contains b.lsbs p ≡ false
  apart_path depth m b e p a c l =
      subst (λ t. contains b.lsbs t ≡ false) l
        (TreeMap.All-contains_key (λ k. contains b.lsbs (lsb k (depth - 1)) ≡ false) e m a c)

  module _ (merge : Element → Element → Element) where
    All-IsFree :
        (depth : ℕ) (t : Tree V) (b : Batch V) (xs : List (Element × V))
        → IsValid merge depth t
        → IsApart depth t.entries b
        → All (λ x. contains b.lsbs (lsb x.0 (depth - 1)) ≡ true) xs
        → All (IsFree 0 (element_at t.node)) (placed depth xs)
    All-IsFree depth t b [] v a c = tt
    All-IsFree depth t b (x ∷ xs) v a c = (
      elim (v.known (lsb x.0 (depth - 1)) (length-lsb x.0 (depth - 1))) [
        | inl n ↦ n
        | inr k ↦ absurd (clash c.0 (apart_path depth t.entries b _ _ a k.0 k.1))
      ],
      All-IsFree depth t b xs v a c.1,
    )
      where
        clash : {q : Bool} → q ≡ true → q ≡ false → ⊥
        clash g h = cc

    All-entries :
        (depth : ℕ) (xs : List (Element × V))
        → All (λ x. x.0 ≢ null_hash) xs
        → All (IsEntry (0 + (depth - 1))) (placed depth xs)
    All-entries depth [] n = tt
    All-entries depth (x ∷ xs) n =
        ((omega (arith, length-lsb x.0 (depth - 1)), n.0), All-entries depth xs n.1)

    IsFree-tracked :
        (depth : ℕ) (t : Tree V) (b : Batch V)
        → IsValid merge depth t
        → Batch.IsValid depth b
        → IsApart depth t.entries b
        → All (IsFree 0 (element_at t.node)) (placed depth b.entries)
    IsFree-tracked depth t b v valid a = All-IsFree depth t b b.entries v a (
        subst (λ s. All (λ x. contains s (lsb x.0 (depth - 1)) ≡ true) b.entries)
          (sym valid.tracked) (contains_self depth b.entries))

    -- A batch that is valid, apart and without null fits into the tree, once it is sorted.
    pub batch-Fits :
        (depth : ℕ) (t : Tree V) (b : Batch V)
        → IsValid merge depth t
        → Batch.IsValid depth b
        → All (λ x. x.0 ≢ null_hash) b.entries
        → IsApart depth t.entries b
        → Fits (depth - 1) 0 (element_at t.node) (sort_by_bits (placed depth b.entries))
    batch-Fits depth t b v valid n a = record {
      entries = All-sort_by_bits _ _ (All-entries depth b.entries n);
      sorted = sort_by_bits-Ascending _ valid.distinct;
      free = All-sort_by_bits _ _ (IsFree-tracked depth t b v valid a);
    }

    -- The tree took the batch: it is valid, it holds the elements of the batch over the old ones,
    -- and its root is that of the naive Merkle tree over these.
    pub record Takes (depth : ℕ) (t : Tree V) (b : Batch V) (t' : Tree V) : Type 0 where
      pub valid : IsValid merge depth t'
      pub contents :
          (p : Bits)
          → length p ≡ depth - 1
          → element_at t'.node p ≡ put_over 0 (placed depth b.entries) (element_at t.node) p
      pub keys :
          (e : Element)
          → contains_element t' e ≡ (any (λ x. x.0 == e) b.entries || contains_element t e)
