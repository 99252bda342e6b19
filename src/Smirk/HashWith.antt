-- ===== src/Smirk/HashWith.antt =====
-- `hash_with` of pkg/smirk/src/tree/tree_repr.rs: the hash that a node would have with more
-- elements in it, computed without inserting them.
use tempo_zk_rollup.Base.{
  ℕ, zero, suc, ◌-◌, ◌≡◌, refl, sym, ap, ap₂, ◌∙◌, true, false, List, [], ◌∷◌, Option, none, some,
  take, drop, map, take-append-drop, arith,
}
use tempo_zk_rollup.Smirk.Bits.{Element, Bits, null_hash, lsb}
use tempo_zk_rollup.Smirk.Hash.{empty_tree_hash, merkle_root, merkle_root_congr, merkle_root-empty}
use tempo_zk_rollup.Smirk.Node.{Node, leaf, empty, parent, Entry, hash, rights_start}
use tempo_zk_rollup.Smirk.Recalculate.{IsHashed, hash-merkle_root}
use tempo_zk_rollup.Smirk.Contents.{element_at, HasHeight, put_over}
use tempo_zk_rollup.Smirk.Insert.{put_over_left, put_over_right, Fits, Fits-Split}
use tempo_zk_rollup.Smirk.Insertion.{drop_all, not_below}
use tempo_zk_rollup.Smirk.Sort.{sort_by_bits}

infixl 5 ◌>>=◌
abbrev pub ◌>>=◌ : {A B : Type 0} → Option A → (A → Option B) → Option B
none >>= f = none
some a >>= f = f a

-- The hash of one child: the cached one, unless elements go there.
unfoldable pub side_hash : (List Entry → Option Element) → Element → List Entry → Option Element
side_hash go h [] = some h
side_hash go h (x ∷ xs) = go (x ∷ xs)

-- `assert!(extra_elements.len() <= 1)`, then the element that goes into an empty leaf.
unfoldable pub first_or_null : List Entry → Option Element
first_or_null [] = some null_hash
first_or_null (x ∷ []) = some x.0
first_or_null (x ∷ y ∷ es) = none

module _ (merge : Element → Element → Element) where
  -- The arm for a parent, with the calls on the children and the children's cached hashes.
  unfoldable pub hash_sides :
      (List Entry → Option Element)
      → (List Entry → Option Element)
      → Element
      → Element
      → List Entry
      → ℕ
      → Option Element
  hash_sides go_left go_right left_hash right_hash es path_depth = do
    s ← rights_start path_depth es
    l ← side_hash go_left left_hash (take s es)
    r ← side_hash go_right right_hash (drop s es)
    some (merge l r)

  -- The arms for an empty node; depth 0 fails in `empty_tree_hash`.
  unfoldable pub hash_empty : ℕ → List Entry → ℕ → Option Element
  hash_empty zero es path_depth = none
  hash_empty (suc zero) es path_depth = first_or_null es
  hash_empty (suc (suc d)) es path_depth =
      hash_sides (λ xs. hash_empty (suc d) xs (suc path_depth))
        (λ ys. hash_empty (suc d) ys (suc path_depth)) (hash merge (empty (suc d)))
        (hash merge (empty (suc d))) es path_depth

  -- `Node::hash_with_inner`; `none` is a panic.
  unfoldable pub hash_with_inner : Node → List Entry → ℕ → Option Element
  hash_with_inner (leaf e) es path_depth = some e
  hash_with_inner (parent left right h dirty) es path_depth =
      hash_sides (λ xs. hash_with_inner left xs (suc path_depth))
        (λ ys. hash_with_inner right ys (suc path_depth)) (hash merge left) (hash merge right) es
        path_depth
  hash_with_inner (empty d) es path_depth = hash_empty d es path_depth

  -- `Node::hash_with`, in a tree of depth `depth`.
  unfoldable pub hash_with : ℕ → Node → List Element → Option Element
  hash_with depth n extra_elements =
      hash_with_inner n (sort_by_bits (map (λ e. (e, lsb e (depth - 1))) extra_elements)) 0

  sides-root :
      (h i : ℕ) (f : Bits → Element) (l r : Element)
      (go_left go_right : List Entry → Option Element) (es : List Entry)
      → l ≡ merkle_root merge h (λ p. f (false ∷ p))
      → r ≡ merkle_root merge h (λ p. f (true ∷ p))
      → Fits (suc h) i f es
      → ((xs : List Entry)
          → Fits h (suc i) (λ p. f (false ∷ p)) xs
          → go_left xs ≡ some (merkle_root merge h (put_over (suc i) xs (λ p. f (false ∷ p)))))
      → ((ys : List Entry)
          → Fits h (suc i) (λ p. f (true ∷ p)) ys
          → go_right ys ≡ some (merkle_root merge h (put_over (suc i) ys (λ p. f (true ∷ p)))))
      → hash_sides go_left go_right l r es i ≡ some (merkle_root merge (suc h) (put_over i es f))
  unfolding hash_sides merkle_root side_hash
  sides-root h i f l r go_left go_right es el er fits hl hr =
      let s = Fits-Split h i f es fits in
      let joined = take-append-drop s.start es in
      rw
        (
          s.found,
          side go_left l (take s.start es) (λ p. f (false ∷ p)) el
              (hl (take s.start es) s.left_fits),
          side go_right r (drop s.start es) (λ p. f (true ∷ p)) er
              (hr (drop s.start es) s.right_fits),
        )
        (ap some (
          ap₂ merge
            (merkle_root_congr merge h _ _ (λ p _.
              sym (put_over_left i (take s.start es) (drop s.start es) f p s.left_goes s.right_goes)
              ∙ ap (λ t. put_over i t f (false ∷ p)) joined))
            (merkle_root_congr merge h _ _ (λ p _.
              sym
                (put_over_right i (take s.start es) (drop s.start es) f p s.left_goes s.right_goes)
              ∙ ap (λ t. put_over i t f (true ∷ p)) joined))))
    where
      side :
          (go : List Entry → Option Element) (c : Element) (xs : List Entry) (g : Bits → Element)
          → c ≡ merkle_root merge h g
          → go xs ≡ some (merkle_root merge h (put_over (suc i) xs g))
          → side_hash go c xs ≡ some (merkle_root merge h (put_over (suc i) xs g))
      side go c [] g e k = ap some e
      side go c (x ∷ xs) g e k = k

  empty-root :
      (h i : ℕ) (es : List Entry)
      → Fits h i (λ _. null_hash) es
      → hash_empty (suc h) es i ≡ some (merkle_root merge h (put_over i es (λ _. null_hash)))
  unfolding hash_empty merkle_root hash first_or_null
  empty-root zero i [] fits = refl
  empty-root zero i (x ∷ []) fits = rw (drop_all i x.1 (omega (arith, fits.entries.0.0)))
  empty-root zero i (x ∷ y ∷ es) fits = absurd (
      not_below (drop_all i x.1 (omega (arith, fits.entries.0.0)))
        (drop_all i y.1 (omega (arith, fits.entries.1.0.0))) fits.sorted.0.0)
  empty-root (suc h) i es fits =
      sides-root h i (λ _. null_hash) (empty_tree_hash merge (suc h))
        (empty_tree_hash merge (suc h)) _ _ es (sym (merkle_root-empty merge h))
        (sym (merkle_root-empty merge h)) fits (λ xs f. empty-root h (suc i) xs f)
        (λ ys f. empty-root h (suc i) ys f)

  -- The result is the root of the naive tree over the node's elements and the batch.
  pub hash_with_inner-root :
      (h i : ℕ) (n : Node) (es : List Entry)
      → HasHeight h n
      → IsHashed merge n
      → Fits h i (element_at n) es
      → hash_with_inner n es i ≡ some (merkle_root merge h (put_over i es (element_at n)))
  unfolding hash_with_inner merkle_root
  hash_with_inner-root zero i (leaf e) [] v k fits = refl
  hash_with_inner-root zero i (leaf e) (x ∷ es) v k fits = absurd (v fits.free.0)
  hash_with_inner-root (suc h) i (leaf e) es v k fits = absurd v
  hash_with_inner-root h i (empty d) es v k fits = rw v (empty-root h i es fits)
  hash_with_inner-root zero i (parent left right x d) es v k fits = absurd v
  hash_with_inner-root (suc h) i (parent left right x d) es v k fits =
      sides-root h i (element_at (parent left right x d)) (hash merge left) (hash merge right) _ _
        es (hash-merkle_root merge h left v.0 k.2) (hash-merkle_root merge h right v.1 k.3) fits
        (λ xs f. hash_with_inner-root h (suc i) left xs v.0 k.2 f)
        (λ ys f. hash_with_inner-root h (suc i) right ys v.1 k.3 f)
