-- ===== src/Smirk/Tree/Walk.antt =====
-- The loop of `path_for` of pkg/smirk/src/tree/path.rs fills the array with the siblings of the
-- naive tree.
use mathlib.Core.List.{append_assoc}
use tempo_zk_rollup.Base.{
  ℕ, zero, suc, ◌≤◌, ◌≡◌, refl, sym, ap, ◌∙◌, Bool, true, false, List, [], ◌∷◌, ◌++◌, some, length,
  drop, set?, set?-append, arith, length-append, subst,
}
use tempo_zk_rollup.Smirk.Bits.{Element, Bits, null_hash}
use tempo_zk_rollup.Smirk.Hash.{empty_tree_hash, merkle_root-empty}
use tempo_zk_rollup.Smirk.Node.{Node, leaf, empty, parent, hash}
use tempo_zk_rollup.Smirk.Contents.{element_at, HasHeight}
use tempo_zk_rollup.Smirk.Recalculate.{IsHashed, hash-merkle_root}
use tempo_zk_rollup.Smirk.Tree.Path.{fill_empty, walk}
use tempo_zk_rollup.Smirk.Tree.Siblings.{siblings_of}

module _ (merge : Element → Element → Element) where
  -- A write behind what is filled, and the array seen from the next place.
  set?_next :
      (pre : List Element) (x v : Element) (rest : List Element) (i : ℕ)
      → length pre ≡ i
      → (set? (pre ++ x ∷ rest) i v ≡ some ((pre ++ v ∷ []) ++ rest))
        × (length (pre ++ v ∷ []) ≡ suc i)
  set?_next pre x v rest i l = (
    subst (λ k. set? (pre ++ x ∷ rest) k v ≡ some ((pre ++ v ∷ []) ++ rest)) l
        (set?-append pre x v rest ∙ ap some (sym (append_assoc pre (v ∷ []) rest))),
    omega (arith, length-append pre (v ∷ [])),
  )

  fill_empty_lem :
      (h i : ℕ) (pre rest : List Element) (p : Bits)
      → length p ≡ h
      → length pre ≡ i
      → h ≤ length rest
      → fill_empty merge (suc h) i (pre ++ rest)
        ≡ some (pre ++ (siblings_of merge h (λ _. null_hash) p ++ drop h rest))
  unfolding fill_empty siblings_of
  fill_empty_lem zero i pre rest p lp l r = refl
  fill_empty_lem (suc h) i pre rest [] lp l r = absurd (omega arith)
  fill_empty_lem (suc h) i pre [] (b ∷ p) lp l r = absurd (omega arith)
  fill_empty_lem (suc h) i pre (x ∷ rest) (b ∷ p) lp l r =
      let v = empty_tree_hash merge (suc h) in
      let (w, k) = set?_next pre x v rest i l in
      rw w (
        fill_empty_lem h (suc i) (pre ++ v ∷ []) rest p (omega arith) k (omega arith)
        ∙ ap some (turn b))
    where
      turn :
          (b : Bool)
          → (pre ++ empty_tree_hash merge (suc h) ∷ [])
              ++ (siblings_of merge h (λ _. null_hash) p ++ drop h rest)
            ≡ pre ++ (siblings_of merge (suc h) (λ _. null_hash) (b ∷ p) ++ drop h rest)
      turn true =
          rw (merkle_root-empty merge h) (append_assoc pre (empty_tree_hash merge (suc h) ∷ []) _)
      turn false =
          rw (merkle_root-empty merge h) (append_assoc pre (empty_tree_hash merge (suc h) ∷ []) _)

  -- From a place on, the loop writes the siblings and leaves the rest of the array.
  pub walk_lem :
      (h i : ℕ) (n : Node) (p : Bits) (pre rest : List Element)
      → HasHeight h n
      → IsHashed merge n
      → length p ≡ h
      → length pre ≡ i
      → h ≤ length rest
      → walk merge n p i (pre ++ rest)
        ≡ some (pre ++ (siblings_of merge h (element_at n) p ++ drop h rest))
  unfolding walk siblings_of
  walk_lem zero i (leaf e) [] pre rest v k lp l r = refl
  walk_lem zero i (empty d) [] pre rest v k lp l r = refl
  walk_lem zero i (parent left right x d) [] pre rest v k lp l r = absurd v
  walk_lem zero i n (b ∷ p) pre rest v k lp l r = absurd (omega arith)
  walk_lem (suc h) i n [] pre rest v k lp l r = absurd (omega arith)
  walk_lem (suc h) i n (b ∷ p) pre [] v k lp l r = absurd (omega arith)
  walk_lem (suc h) i (leaf e) (b ∷ p) pre (x ∷ rest) v k lp l r = absurd v
  walk_lem (suc h) i (empty d) (b ∷ p) pre (x ∷ rest) v k lp l r =
      rw v (fill_empty_lem (suc h) i pre (x ∷ rest) (b ∷ p) lp l r)
  walk_lem (suc h) i (parent left right y d) (false ∷ p) pre (x ∷ rest) v k lp l r =
      let w = set?_next pre x (hash merge right) rest i l in
      rw w.0 (
        walk_lem h (suc i) left p (pre ++ hash merge right ∷ []) rest v.0 k.2 (omega arith) w.1
          (omega arith)
        ∙ ap some (
            rw (← hash-merkle_root merge h right v.1 k.3)
              (append_assoc pre (hash merge right ∷ []) _)))
  walk_lem (suc h) i (parent left right y d) (true ∷ p) pre (x ∷ rest) v k lp l r =
      let w = set?_next pre x (hash merge left) rest i l in
      rw w.0 (
        walk_lem h (suc i) right p (pre ++ hash merge left ∷ []) rest v.1 k.3 (omega arith) w.1
          (omega arith)
        ∙ ap some (
            rw (← hash-merkle_root merge h left v.0 k.2)
              (append_assoc pre (hash merge left ∷ []) _)))
