-- ===== src/Smirk/Tree/Root.antt =====
-- `root_hash` and `root_hash_with` of pkg/smirk/src/tree/mod.rs on well-formed trees.
use tempo_zk_rollup.Base.{
  ℕ, zero, suc, ◌-◌, ◌≡◌, ◌≢◌, refl, sym, ap, ◌∙◌, true, false, List, [], ◌∷◌, some, length, map,
  All, arith,
}
use tempo_zk_rollup.Smirk.Bits.{Element, Bits, null_hash, lsb}
use tempo_zk_rollup.Smirk.Hash.{merkle_root, merkle_root_congr}
use tempo_zk_rollup.Smirk.Contents.{element_at, put_over}
use tempo_zk_rollup.Smirk.Node.{Collision}
use tempo_zk_rollup.Smirk.Recalculate.{Event, hash-merkle_root}
use tempo_zk_rollup.Smirk.Sort.{put_over-sort_by_bits, sort_by_bits}
use tempo_zk_rollup.Smirk.HashWith.{hash_with, hash_with_inner-root}
use tempo_zk_rollup.Smirk.Batch.{Batch, placed, elements}
use tempo_zk_rollup.Smirk.Batch
use tempo_zk_rollup.Smirk.Tree.{Tree, insert_batch, root_hash, root_hash_with}
use tempo_zk_rollup.Smirk.Tree.Valid.{IsValid}
use tempo_zk_rollup.Smirk.Tree.InsertBatch.{IsApart, batch-Fits}
use tempo_zk_rollup.Smirk.Tree.Takes.{BatchOutcome, takes, refuses, insert_batch_lem}

module _ (merge : Element → Element → Element) where
  -- Under a hash without collisions equal roots mean equal leaves.
  pub merkle_root-injective :
      ((a b c d : Element) → merge a b ≡ merge c d → (a ≡ c) × (b ≡ d))
      → (h : ℕ) (f g : Bits → Element) → merkle_root merge h f ≡ merkle_root merge h g
      → (p : Bits) → length p ≡ h
      → f p ≡ g p
  unfolding merkle_root
  merkle_root-injective inj zero f g e [] l = e
  merkle_root-injective inj zero f g e (b ∷ p) l = absurd (omega arith)
  merkle_root-injective inj (suc h) f g e [] l = absurd (omega arith)
  merkle_root-injective inj (suc h) f g e (false ∷ p) l =
      merkle_root-injective inj h (λ q. f (false ∷ q)) (λ q. g (false ∷ q)) (inj _ _ _ _ e).0 p
        (omega arith)
  merkle_root-injective inj (suc h) f g e (true ∷ p) l =
      merkle_root-injective inj h (λ q. f (true ∷ q)) (λ q. g (true ∷ q)) (inj _ _ _ _ e).1 p
        (omega arith)

  module _ {V : Type 0} where
    -- The root hash of a valid tree is that of the naive Merkle tree over its elements.
    pub root_hash-merkle_root :
        (depth : ℕ) (t : Tree V)
        → IsValid merge depth t
        → root_hash merge t ≡ merkle_root merge (depth - 1) (element_at t.node)
    root_hash-merkle_root depth t v = hash-merkle_root merge (depth - 1) t.node v.height v.hashed

    placed-elements :
        (depth : ℕ) (xs : List (Element × V))
        → map (λ e. (e, lsb e (depth - 1))) (map (λ x. x.0) xs) ≡ placed depth xs
    placed-elements depth [] = refl
    placed-elements depth (x ∷ xs) =
        ap (λ t. (x.0, lsb x.0 (depth - 1)) ∷ t) (placed-elements depth xs)

    -- `root_hash_with` finds, without inserting, the root of the elements with the batch over them.
    pub root_hash_with-merkle_root :
        (depth : ℕ) (t : Tree V) (b : Batch V)
        → IsValid merge depth t
        → Batch.IsValid depth b
        → All (λ x. x.0 ≢ null_hash) b.entries
        → IsApart depth t.entries b
        → root_hash_with merge depth t (elements b)
          ≡ some (
              merkle_root merge
                (depth - 1)
                (put_over 0 (placed depth b.entries) (element_at t.node)))
    unfolding hash_with
    root_hash_with-merkle_root depth t b v valid nn a = rw (placed-elements depth b.entries) (
        hash_with_inner-root merge (depth - 1) 0 t.node (sort_by_bits (placed depth b.entries))
          v.height v.hashed (batch-Fits merge depth t b v valid nn a)
        ∙ ap some (
            merkle_root_congr merge (depth - 1) _ _ (λ p l.
              put_over-sort_by_bits (placed depth b.entries) (element_at t.node) p valid.distinct)))

    -- On a well-formed tree and a well-formed batch without the null hash, where `insert_batch`
    -- answers `Ok`, the root that `root_hash_with` foretells is the root of the tree
    -- afterwards.
    pub root_hash_with-insert_batch :
        (depth : ℕ) (t : Tree V) (b : Batch V)
        → IsValid merge depth t
        → Batch.IsValid depth b
        → All (λ x. x.0 ≢ null_hash) b.entries
        → (insert_batch merge depth t b).1 ≡ Batch.ok tt
        → root_hash_with merge depth t (elements b)
          ≡ some (root_hash merge (insert_batch merge depth t b).0.0)
    root_hash_with-insert_batch depth t b v valid nn done =
        from (insert_batch_lem merge depth t b v valid nn) done
      where
        from :
            {r : (Tree V × List Event) × Batch.Checked (Unit {0})}
            → BatchOutcome merge depth t b r
            → r.1 ≡ Batch.ok tt
            → root_hash_with merge depth t (elements b) ≡ some (root_hash merge r.0.0)
        from {r} (takes p a taken sound) e =
            root_hash_with-merkle_root depth t b v valid nn a
            ∙ ap some (
                sym (
                  root_hash-merkle_root depth r.0.0 taken.valid
                  ∙ merkle_root_congr merge (depth - 1) _ _ taken.contents))
        from (refuses c cs p k u) e = absurd (differ (sym p ∙ e))
          where
            differ :
                {l : List Collision}
                → ◌≡◌ {A = Batch.Checked (Unit {0})} (Batch.collides l) (Batch.ok tt)
                → ⊥
            differ q = cc
