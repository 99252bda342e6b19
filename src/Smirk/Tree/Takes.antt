-- ===== src/Smirk/Tree/Takes.antt =====
-- `insert_batch` of pkg/smirk/src/tree/batch.rs: either the whole batch is taken, or the collisions
-- are reported and the tree is left as it was.
use tempo_zk_rollup.Base.{
  ℕ, ◌-◌, ◌≡◌, ◌≢◌, refl, sym, ◌∙◌, inl, inr, Bool, true, false, List, [], ◌∷◌, none, length, any,
  find, All, All-imp, ◌==◌, arith, Bool-cases, subst,
}
use tempo_zk_rollup.Smirk.Bits.{Element, Bits, null_hash, lsb, length-lsb}
use tempo_zk_rollup.Smirk.Node.{Node, Collision, insert_without_hashing, done}
use tempo_zk_rollup.Smirk.Contents.{element_at, HasHeight, put_over}
use tempo_zk_rollup.Smirk.Insertion.{Inserts, insert_without_hashing-Inserts}
use tempo_zk_rollup.Smirk.Recalculate.{
  IsHashed, recalculate_hashes, recalculate_hashes-IsHashed, recalculate_hashes-element_at,
  recalculate_hashes-HasHeight,
}
use tempo_zk_rollup.Smirk.Sort.{sort_by_bits, sort_by_bits-nonempty, put_over-sort_by_bits}
use tempo_zk_rollup.Smirk.Batch.{
  Batch, contains, placed, paths, find_element_with_lsb, ok, collides, elements,
}
use tempo_zk_rollup.Smirk.Batch
use tempo_zk_rollup.Smirk.Tree.{
  Tree, insert_entries, insert_batch, raw_insert, record_entries, contains_element,
}
use tempo_zk_rollup.Smirk.Tree.Valid.{
  IsValid, IsKnown, contains_self, put_over-apart, put_over_self, put_over_cases, Puts,
  contains_key-insert_entries, All-insert_entries,
}
use tempo_zk_rollup.Smirk.Node.{Outcome}
use tempo_zk_rollup.Smirk.Recalculate.{
  IsMarked, IsHashed-IsMarked, Event, IsSound, recalculate_hashes-IsSound,
}
use tempo_zk_rollup.Smirk.Tree.{inserted}
use tempo_zk_rollup.Smirk.Tree.InsertBatch.{
  apart_path, IsApart, IsClash, Takes, batch-Fits, check_collisions_lem,
}
use tempo_zk_rollup.Smirk.Batch.{Checked}

module _ {V : Type 0} (merge : Element → Element → Element) where
  tracked_apart :
      (depth : ℕ) (b : Batch V) (m : List (Element × V))
      → Batch.IsValid depth b
      → IsApart depth m b
      → All (λ k. contains (paths depth b.entries) (lsb k.0 (depth - 1)) ≡ false) m
  tracked_apart depth b m valid a =
      subst (λ s. All (λ k. contains s (lsb k.0 (depth - 1)) ≡ false) m) valid.tracked a

  -- A node with the contents that the batch asks for makes a valid tree.
  node-Takes :
      (depth : ℕ) (t : Tree V) (b : Batch V) (n : Node)
      → IsValid merge depth t
      → Batch.IsValid depth b
      → IsApart depth t.entries b
      → HasHeight (depth - 1) n
      → IsHashed merge n
      → ((p : Bits)
          → length p ≡ depth - 1
          → element_at n p ≡ put_over 0 (placed depth b.entries) (element_at t.node) p)
      → Takes merge depth t b (record { node = n; entries = insert_entries t.entries b.entries })
  node-Takes depth t b n v valid a height hashed contents = record {
    valid = record {
      height = height;
      hashed = hashed;
      held =
          All-insert_entries (λ k. element_at n (lsb k (depth - 1)) ≡ k) t.entries b.entries
            (old t.entries v.held (tracked_apart depth b t.entries valid a))
            (All-imp b.entries
              (λ x e. contents (lsb x.0 (depth - 1)) (length-lsb x.0 (depth - 1)) ∙ e)
              (put_over_self depth b.entries (element_at t.node) valid.distinct));
      known = λ p l. from p l (put_over_cases depth b.entries (element_at t.node) p) (v.known p l);
    };
    contents = contents;
    keys = λ e. contains_key-insert_entries t.entries b.entries e;
  }
    where
      old :
          (m : List (Element × V))
          → All (λ x. element_at t.node (lsb x.0 (depth - 1)) ≡ x.0) m
          → All (λ k. contains (paths depth b.entries) (lsb k.0 (depth - 1)) ≡ false) m
          → All (λ x. element_at n (lsb x.0 (depth - 1)) ≡ x.0) m
      old [] h c = tt
      old (x ∷ m) h c = (
        contents (lsb x.0 (depth - 1)) (length-lsb x.0 (depth - 1))
            ∙ put_over-apart depth b.entries (element_at t.node) (lsb x.0 (depth - 1)) c.0
            ∙ h.0,
        old m h.1 c.1,
      )

      from :
          (p : Bits)
          → length p ≡ depth - 1
          → Puts depth b.entries (element_at t.node) p
          → IsKnown (depth - 1) t.entries p (element_at t.node p)
          → IsKnown (depth - 1) (insert_entries t.entries b.entries) p (element_at n p)
      from p l (inl (e, q, c, s)) k =
          rw (contents p l ∙ q)
            (inr (contains_key-insert_entries t.entries b.entries e ∙ ground arith, s))
      from p l (inr q) (inl z) = inl (contents p l ∙ q ∙ z)
      from p l (inr q) (inr (c, s)) = rw (contents p l ∙ q) (
          inr (
            contains_key-insert_entries t.entries b.entries (element_at t.node p) ∙ ground arith,
            s,
          ))

  record_entries-done :
      (t : Tree V) (es : List (Element × V)) (r : Node × Outcome)
      → r.1 ≡ done true
      → record_entries merge t es r
        ≡ (record { node = r.0; entries = insert_entries t.entries es }, inserted)
  unfolding record_entries
  record_entries-done t es (n, done true) e = refl
  record_entries-done t es (n, done false) e = cc
  record_entries-done t es (n, Outcome.collision c) e = cc
  record_entries-done t es (n, Outcome.panics) e = cc

  none_null :
      (xs : List (Element × V))
      → All (λ x. x.0 ≢ null_hash) xs
      → any (λ e. e.0 == null_hash) xs ≡ false
  none_null [] h = refl
  none_null (x ∷ xs) h = ground (arith, none_null xs h.1, h.0)

  none_contained :
      (depth : ℕ) (t : Tree V) (b : Batch V) (xs : List (Element × V))
      → IsApart depth t.entries b
      → All (λ x. contains b.lsbs (lsb x.0 (depth - 1)) ≡ true) xs
      → find (λ e. contains_element t e.0) xs ≡ none
  none_contained depth t b [] a c = refl
  none_contained depth t b (x ∷ xs) a c = elim (Bool-cases (contains_element t x.0)) [
    | inl h ↦ absurd (clash c.0 (apart_path depth t.entries b x.0 _ a h refl))
    | inr h ↦ rw h (none_contained depth t b xs a c.1)
  ]
    where
      clash : {q : Bool} → q ≡ true → q ≡ false → ⊥
      clash g h = cc

  -- The insertion into the nodes and the map, before the hashes are brought up to date.
  abbrev RawInserts : ℕ → Tree V → List (Element × V) → Type 0
  RawInserts depth t xs =
      (n : Node) × (raw_insert merge depth t xs
        ≡ (record { node = n; entries = insert_entries t.entries xs }, inserted))
      × HasHeight (depth - 1) n
      × IsMarked merge n
      × ((p : Bits)
          → length p ≡ depth - 1
          → element_at n p ≡ put_over 0 (placed depth xs) (element_at t.node) p)

  raw_insert_lem :
      (depth : ℕ) (t : Tree V) (xs : List (Element × V)) (ls : List Bits)
      → let b : Batch V = record { entries = xs; lsbs = ls } in
        IsValid merge depth t
        → Batch.IsValid depth b
        → All (λ x. x.0 ≢ null_hash) xs
        → IsApart depth t.entries b
        → RawInserts depth t xs
  unfolding raw_insert
  raw_insert_lem depth t [] ls v valid nn a =
      (t.node, refl, v.height, IsHashed-IsMarked merge t.node v.hashed, λ p l. refl)
  raw_insert_lem depth t (x ∷ xs) ls v valid nn a =
      let b : Batch V = record { entries = x ∷ xs; lsbs = ls } in
      let batch_entries = sort_by_bits (placed depth (x ∷ xs)) in
      let r = insert_without_hashing merge depth t.node batch_entries 0 in
      let i : Inserts merge (depth - 1) 0 t.node batch_entries r =
        insert_without_hashing-Inserts merge depth (depth - 1) 0 t.node batch_entries v.height
          v.hashed (batch-Fits merge depth t b v valid nn a) (sort_by_bits-nonempty _ _) in
      let tracked =
        subst (λ s. All (λ y. contains s (lsb y.0 (depth - 1)) ≡ true) (x ∷ xs)) (sym valid.tracked)
          (contains_self depth (x ∷ xs)) in
      (
        r.0,
        rw (none_null (x ∷ xs) nn) (
            rw (none_contained depth t b (x ∷ xs) a tracked)
              (record_entries-done t (x ∷ xs) r i.ok)),
        i.height,
        i.marked,
        λ p l.
            i.contents p l
            ∙ put_over-sort_by_bits (placed depth (x ∷ xs)) (element_at t.node) p valid.distinct,
      )

  -- What `insert_batch` does on a valid tree: it takes the whole batch and tells the callbacks
  -- right hashes only, or it reports pairs that have one path and leaves the tree alone.
  pub data BatchOutcome (depth : ℕ) (t : Tree V) (b : Batch V)
      (r : (Tree V × List Event) × Checked (Unit {0})) : Type 0 where
    takes :
        r.1 ≡ ok tt
        → IsApart depth t.entries b
        → Takes merge depth t b r.0.0
        → All (IsSound merge) r.0.1
        → BatchOutcome depth t b r
    refuses :
        (c : Collision) (cs : List Collision)
        → r.1 ≡ collides (c ∷ cs)
        → All (IsClash depth t.entries b) (c ∷ cs)
        → r.0.0 ≡ t
        → BatchOutcome depth t b r

  -- On a well-formed tree and a well-formed batch without the null hash, `insert_batch` has one
  -- of two outcomes. Either it answers `Ok`: no path of the batch was taken, the new tree is
  -- well-formed and holds the old elements and those of the batch, each at its path, and the
  -- set callback got right hashes. Or it answers with at least one collision, each of an entry
  -- of the tree and one of the batch with the same path, and the tree is as it was. It does not
  -- panic.
  pub insert_batch_lem :
      (depth : ℕ) (t : Tree V) (b : Batch V)
      → IsValid merge depth t
      → Batch.IsValid depth b
      → All (λ x. x.0 ≢ null_hash) b.entries
      → BatchOutcome depth t b (insert_batch merge depth t b)
  unfolding insert_batch
  insert_batch_lem depth t b v valid nn = elim (check_collisions_lem depth t b valid) [
    | inl (p, a) ↦
        let (n, e, height, marked, contents) =
          raw_insert_lem depth t b.entries b.lsbs v valid nn a in
        rw (p, e, insert_batch)
          (takes refl a
            (node-Takes depth t b (recalculate_hashes merge n).0 v valid a
              (recalculate_hashes-HasHeight merge (depth - 1) n height)
              (recalculate_hashes-IsHashed merge n marked)
              (λ q l. recalculate_hashes-element_at merge n q ∙ contents q l))
            (recalculate_hashes-IsSound merge n))
    | inr (c, cs, p, r) ↦ rw (p, insert_batch) (refuses c cs refl r refl)
  ]

  -- `insert_batch` of a well-formed batch without the null hash keeps a well-formed tree
  -- well-formed, whether it takes the batch or refuses it.
  pub insert_batch-IsValid :
      (depth : ℕ) (t : Tree V) (b : Batch V)
      → IsValid merge depth t
      → Batch.IsValid depth b
      → All (λ x. x.0 ≢ null_hash) b.entries
      → IsValid merge depth (insert_batch merge depth t b).0.0
  insert_batch-IsValid depth t b v valid nn = elim (insert_batch_lem depth t b v valid nn) [
    | takes p a taken sound ↦ taken.valid
    | refuses c cs p k u ↦ subst (IsValid merge depth) (sym u) v
  ]
