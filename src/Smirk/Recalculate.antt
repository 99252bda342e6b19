-- ===== src/Smirk/Recalculate.antt =====
-- `recalculate_hashes` of pkg/smirk/src/tree/tree_repr.rs, which brings the cached hashes of the
-- parents up to date after an insertion, and the states of the cached hashes.
use tempo_zk_rollup.Base.{ℕ, zero, suc, ◌≡◌, refl, ap₂, ◌∙◌, true, false, List, [], ◌∷◌, ◌++◌, All}
use tempo_zk_rollup.Smirk.Bits.{Element, Bits}
use tempo_zk_rollup.Smirk.Hash.{merkle_root, merkle_root-empty}
use tempo_zk_rollup.Smirk.Node.{Node, leaf, empty, parent, hash}
use tempo_zk_rollup.Smirk.Contents.{element_at, HasHeight}

-- A call of one of the two callbacks.
pub data Event : Type 0 where
  hash_remove : Element → Element → Event
  hash_set : Element → Element → Element → Event

module _ (merge : Element → Element → Element) where
  -- `rayon::join` may run the two calls in either order; here the left one is first. The cache is
  -- `NoopHashCache`, whose `hash` is `hash_merge`.
  unfoldable pub recalculate_hashes : Node → Node × List Event
  recalculate_hashes (leaf e) = (leaf e, [])
  recalculate_hashes (empty d) = (empty d, [])
  recalculate_hashes (parent left right h false) = (parent left right h false, [])
  recalculate_hashes (parent left right h true) =
      let (left', l) = recalculate_hashes left in
      let (right', r) = recalculate_hashes right in
      let h' = merge (hash merge left') (hash merge right') in
      (
        parent left' right' h' false,
        hash_remove (hash merge left) (hash merge right)
            ∷ (l ++ (r ++ hash_set (hash merge left') (hash merge right') h' ∷ [])),
      )

  -- Every parent is marked clean and holds the hash of its children.
  abbrev pub IsHashed : Node → Type 0
  IsHashed (leaf e) = Unit
  IsHashed (empty d) = Unit
  IsHashed (parent left right h dirty) =
      (dirty ≡ false)
      × (h ≡ merge (hash merge left) (hash merge right))
      × IsHashed left
      × IsHashed right

  -- A parent that is marked clean is up to date with all below it.
  abbrev pub IsMarked : Node → Type 0
  IsMarked (leaf e) = Unit
  IsMarked (empty d) = Unit
  IsMarked (parent left right h true) = IsMarked left × IsMarked right
  IsMarked (parent left right h false) =
      (h ≡ merge (hash merge left) (hash merge right)) × IsHashed left × IsHashed right

  pub IsHashed-IsMarked : (n : Node) → IsHashed n → IsMarked n
  IsHashed-IsMarked (leaf e) v = tt
  IsHashed-IsMarked (empty d) v = tt
  IsHashed-IsMarked (parent left right h true) v = cc (v.0)
  IsHashed-IsMarked (parent left right h false) v = (v.1, v.2, v.3)

  -- Where every node that is marked clean is right with all below it, every cached hash is
  -- right and marked clean after `recalculate_hashes`.
  pub recalculate_hashes-IsHashed : (n : Node) → IsMarked n → IsHashed (recalculate_hashes n).0
  unfolding recalculate_hashes
  recalculate_hashes-IsHashed (leaf e) m = tt
  recalculate_hashes-IsHashed (empty d) m = tt
  recalculate_hashes-IsHashed (parent left right h false) m = (refl, m.0, m.1, m.2)
  recalculate_hashes-IsHashed (parent left right h true) m =
      (refl, refl, recalculate_hashes-IsHashed left m.0, recalculate_hashes-IsHashed right m.1)

  pub recalculate_hashes-element_at :
      (n : Node) (p : Bits) → element_at (recalculate_hashes n).0 p ≡ element_at n p
  unfolding recalculate_hashes
  recalculate_hashes-element_at (leaf e) p = refl
  recalculate_hashes-element_at (empty d) p = refl
  recalculate_hashes-element_at (parent left right h false) p = refl
  recalculate_hashes-element_at (parent left right h true) [] = refl
  recalculate_hashes-element_at (parent left right h true) (true ∷ p) =
      recalculate_hashes-element_at right p
  recalculate_hashes-element_at (parent left right h true) (false ∷ p) =
      recalculate_hashes-element_at left p

  pub recalculate_hashes-HasHeight :
      (h : ℕ) (n : Node) → HasHeight h n → HasHeight h (recalculate_hashes n).0
  unfolding recalculate_hashes
  recalculate_hashes-HasHeight h (leaf e) v = v
  recalculate_hashes-HasHeight h (empty d) v = v
  recalculate_hashes-HasHeight h (parent left right x false) v = v
  recalculate_hashes-HasHeight zero (parent left right x true) v = v
  recalculate_hashes-HasHeight (suc h) (parent left right x true) v =
      (recalculate_hashes-HasHeight h left v.0, recalculate_hashes-HasHeight h right v.1)

  -- A hashed node's cached hash is the root of the naive tree over its elements.
  pub hash-merkle_root :
      (h : ℕ) (n : Node)
      → HasHeight h n
      → IsHashed n
      → hash merge n ≡ merkle_root merge h (element_at n)
  unfolding hash merkle_root
  hash-merkle_root zero (leaf e) v k = refl
  hash-merkle_root (suc h) (leaf e) v k = absurd v
  hash-merkle_root h (empty d) v k = rw v (flip (merkle_root-empty merge h))
    where
      flip : {a b : Element} → a ≡ b → b ≡ a
      flip p = cc
  hash-merkle_root zero (parent left right x dirty) v k = absurd v
  hash-merkle_root (suc h) (parent left right x dirty) v k =
      k.1 ∙ ap₂ merge (hash-merkle_root h left v.0 k.2) (hash-merkle_root h right v.1 k.3)

  abbrev pub IsSound : Event → Type 0
  IsSound (hash_remove l r) = Unit
  IsSound (hash_set l r h) = h ≡ merge l r

  All-append_events :
      (xs ys : List Event) → All IsSound xs → All IsSound ys → All IsSound (xs ++ ys)
  All-append_events [] ys a b = b
  All-append_events (x ∷ xs) ys a b = (a.0, All-append_events xs ys a.1 b)

  -- Every call of the set callback in `recalculate_hashes` hands over two hashes and the hash
  -- of the two.
  pub recalculate_hashes-IsSound : (n : Node) → All IsSound (recalculate_hashes n).1
  unfolding recalculate_hashes
  recalculate_hashes-IsSound (leaf e) = tt
  recalculate_hashes-IsSound (empty d) = tt
  recalculate_hashes-IsSound (parent left right h false) = tt
  recalculate_hashes-IsSound (parent left right h true) = (
    tt,
    All-append_events _ _ (recalculate_hashes-IsSound left)
        (All-append_events _ _ (recalculate_hashes-IsSound right) (refl, tt)),
  )
