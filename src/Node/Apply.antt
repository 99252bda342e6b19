-- ===== src/Node/Apply.antt =====
-- `apply_block_to_tree` of pkg/node/src/node/block.rs, and `insert_batch` of
-- pkg/smirk/src/storage/batch.rs less what it writes to the database.
use tempo_zk_rollup.Base.{
  ℕ, ◌≡◌, ◌≢◌, refl, sym, ap, ◌∙◌, ◌⊎◌, inl, inr, Bool, false, not, ◌&&◌, ◌||◌, List, [], ◌∷◌, some,
  map, any, filter, All, ◌==◌, if◌then◌else◌, arith, Bool-cases, subst,
}
use tempo_zk_rollup.Smirk.Bits.{Element, null_hash}
use tempo_zk_rollup.Smirk.Batch.{
  Batch, Checked, ok, collides, panics, ◌>>=◌, bind_ok, from_entries, from_entries-IsValid,
  elements,
}
use tempo_zk_rollup.Smirk.Batch
use tempo_zk_rollup.Smirk.Node.{Collision}
use tempo_zk_rollup.Smirk.Recalculate.{Event}
use tempo_zk_rollup.Smirk.Tree.{Tree, root_hash, root_hash_with, contains_element, insert_batch}
use tempo_zk_rollup.Smirk.Tree.Valid.{IsValid}
use tempo_zk_rollup.Smirk.Tree.InsertBatch.{Takes}
use tempo_zk_rollup.Smirk.Tree.Takes.{BatchOutcome, takes, refuses, insert_batch_lem}
use tempo_zk_rollup.Smirk.Tree.Root.{root_hash_with-insert_batch}
use tempo_zk_rollup.Doomslug.Approval.{BlockHeight}
use tempo_zk_rollup.Node.Validate.{BlockState, block_leaves, non_null}
use tempo_zk_rollup.Node.ValidBlock.{IsRoot}

module _ (merge : Element → Element → Element) where
  -- `Persistent::insert_batch`: an empty batch changes nothing.
  unfoldable pub persistent_insert_batch : {V : Type 0} → ℕ → Tree V → Batch V → Checked (Tree V)
  persistent_insert_batch depth t b = elim b.entries [
    | [] ↦ ok t
    | x ∷ xs ↦ (let r = insert_batch merge depth t b in r.1 >>= λ u. ok r.0.0)
  ]

  -- `apply_block_to_tree`; the metadata of a leaf is the height at which it came in.
  unfoldable pub apply_block_to_tree :
      ℕ → Tree BlockHeight → BlockState → BlockHeight → Bool → Checked (Tree BlockHeight)
  unfolding persistent_insert_batch
  apply_block_to_tree depth tree state current_height ignore_collisions =
      let leaves = non_null (block_leaves state.txns) in
      let entries = map (λ e. (e, current_height)) leaves in
      if not ignore_collisions && any (λ e. contains_element tree e) leaves then panics else (do
        batch ← from_entries depth (
            if ignore_collisions
            then filter (λ x. not (contains_element tree x.0)) entries
            else entries)
        persistent_insert_batch depth tree batch)

  -- What an insertion that succeeds does.
  pub record Inserted {V : Type 0} (depth : ℕ) (t t' : Tree V) (b : Batch V) : Type 0 where
    pub valid : IsValid merge depth t'
    pub keys :
        (e : Element)
        → contains_element t' e ≡ (any (λ x. x.0 == e) b.entries || contains_element t e)
    pub root : IsRoot merge depth t (elements b) (root_hash merge t')

  pub persistent_insert_batch_lem :
      {V : Type 0} (depth : ℕ) (t t' : Tree V) (b : Batch V)
      → IsValid merge depth t
      → Batch.IsValid depth b
      → All (λ x. x.0 ≢ null_hash) b.entries
      → persistent_insert_batch depth t b ≡ ok t'
      → Inserted depth t t' b
  unfolding persistent_insert_batch
  persistent_insert_batch_lem {V} depth t t' b v valid nn h = elim (List-cases b.entries) [
    | inl e ↦
        subst (λ x. Inserted depth t x b) (ok-injective (rw (e, persistent_insert_batch) at h))
          (record {
            valid = v;
            keys = λ k. rw e;
            root =
                subst (λ l. IsRoot merge depth t (map (λ x. x.0) l) (root_hash merge t)) (sym e)
                  refl;
          })
    | inr (x, xs, e) ↦
        let (u, p, q) =
          bind_ok (insert_batch merge depth t b).1 (λ u. ok (insert_batch merge depth t b).0.0)
            (rw (e, persistent_insert_batch) at h) in
        let after = taken (insert_batch_lem merge depth t b v valid nn) p in
        subst (λ s. Inserted depth t s b) (ok-injective q)
          (record {
            valid = after.valid;
            keys = after.keys;
            root =
                subst
                  (λ l.
                    IsRoot merge depth t (map (λ y. y.0) l)
                      (root_hash merge (insert_batch merge depth t b).0.0))
                  (sym e)
                  (subst
                    (λ l.
                      root_hash_with merge depth t (map (λ y. y.0) l)
                      ≡ some (root_hash merge (insert_batch merge depth t b).0.0))
                    e (root_hash_with-insert_batch merge depth t b v valid nn p));
          })
  ]
    where
      List-cases :
          {A : Type 0} (xs : List A) → (xs ≡ []) ⊎ ((y : A) × (ys : List A) × (xs ≡ y ∷ ys))
      List-cases [] = inl refl
      List-cases (y ∷ ys) = inr (y, ys, refl)

      ok-injective : {A : Type 0} {a b : A} → ok a ≡ ok b → a ≡ b
      ok-injective p = cc

      refused : {cs : List Collision} → ◌≡◌ {A = Checked (Unit {0})} (collides cs) (ok tt) → ⊥
      refused q = cc

      taken :
          {r : (Tree V × List Event) × Checked (Unit {0})}
          → BatchOutcome merge depth t b r
          → r.1 ≡ ok tt
          → Takes merge depth t b r.0.0
      taken (takes p a after sound) q = after
      taken (refuses c cs p k u) q = absurd (refused (sym p ∙ q))

  any-map :
      (f : Element → Bool) (h : BlockHeight) (xs : List Element)
      → any (λ (x : Element × BlockHeight). f x.0) (map (λ e. (e, h)) xs) ≡ any f xs
  any-map f h [] = refl
  any-map f h (x ∷ xs) = rw (any-map f h xs)

  firsts :
      (h : BlockHeight) (xs : List Element)
      → map (λ (x : Element × BlockHeight). x.0) (map (λ e. (e, h)) xs) ≡ xs
  firsts h [] = refl
  firsts h (x ∷ xs) = rw (firsts h xs)

  non_null_entries :
      (h : BlockHeight) (xs : List Element)
      → All (λ (x : Element × BlockHeight). x.0 ≢ null_hash) (map (λ e. (e, h)) (non_null xs))
  non_null_entries h [] = tt
  non_null_entries h (x ∷ xs) = ground (arith, non_null_entries h xs)

  pub applied :
      (depth : ℕ) (t t' : Tree BlockHeight) (state : BlockState) (height : BlockHeight)
      → IsValid merge depth t
      → apply_block_to_tree depth t state height false ≡ ok t'
      → IsValid merge depth t'
        × ((e : Element)
            → contains_element t' e
              ≡ (any (λ x. x == e) (non_null (block_leaves state.txns)) || contains_element t e))
        × IsRoot merge depth t (non_null (block_leaves state.txns)) (root_hash merge t')
  unfolding apply_block_to_tree
  applied depth t t' state height v h =
      elim (Bool-cases (any (λ e. contains_element t e) (non_null (block_leaves state.txns)))) [
        | inl e ↦ absurd (panics≢ok (rw (e, apply_block_to_tree) at h))
        | inr e ↦
            let es = map (λ e. (e, height)) (non_null (block_leaves state.txns)) in
            let (b, p, q) = bind_ok (from_entries depth es) _ (rw (e, apply_block_to_tree) at h) in
            let (valid, same) = from_entries-IsValid depth b es p in
            let r =
              persistent_insert_batch_lem depth t t' b v valid
                (subst (λ (l : List (Element × BlockHeight)). All (λ x. x.0 ≢ null_hash) l)
                  (sym same) (non_null_entries height (block_leaves state.txns)))
                q in
            (
              r.valid,
              λ k.
                  r.keys k
                  ∙ ap
                      (λ (l : List (Element × BlockHeight)).
                        any (λ x. x.0 == k) l || contains_element t k)
                      same
                  ∙ ap (λ c. c || contains_element t k)
                      (any-map (λ x. x == k) height (non_null (block_leaves state.txns))),
              subst (λ l. IsRoot merge depth t l (root_hash merge t'))
                  (ap (λ (l : List (Element × BlockHeight)). map (λ x. x.0) l) same
                    ∙ firsts height (non_null (block_leaves state.txns)))
                  r.root,
            )
      ]
    where
      panics≢ok : {A : Type 0} {a : A} → panics ≡ ok a → ⊥
      panics≢ok q = cc
