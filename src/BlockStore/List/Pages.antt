-- ===== src/BlockStore/List/Pages.antt =====
-- The pages of the blocks: `list_paginated` of pkg/block-store/src/keys.rs and list.rs.
use tempo_zk_rollup.Base.{
  ℕ, ◌^◌, ◌<◌, ◌≡◌, refl, sym, ap, ap₂, ◌∙◌, Bool, true, false, List, ◌∷◌, [], Option, none, some,
  map, map-reverse, filter-reverse, filter_cong, filter_all, take-map, reverse, reverse-reverse,
  take, filter, if◌then◌else◌, arith,
}
use tempo_zk_rollup.Doomslug.Approval.{BlockHeight}
use tempo_zk_rollup.Primitives.Cursor.{
  Bound, unbounded, CursorChoice, CursorChoiceAfter, CursorChoiceBefore,
}
use tempo_zk_rollup.Primitives.Cursor.After
use tempo_zk_rollup.Primitives.Cursor.Before
use tempo_zk_rollup.Primitives.Cursor.Choice
use tempo_zk_rollup.BlockStore.Db.{RocksDb}
use tempo_zk_rollup.BlockStore.Keys.{Key, StoreResult, ok}
use tempo_zk_rollup.BlockStore.Store.{StoredBlock, ◌>>=◌}
use tempo_zk_rollup.BlockStore.Entries.{IsStore}
use tempo_zk_rollup.BlockStore.List.{
  Listable, to_key, BlockListOrder, lowest_to_highest, highest_to_lowest, own_key, collect_results,
  into_iterator, list_request, list_keys_paginated, list_paginated,
}
use tempo_zk_rollup.BlockStore.List.Range.{IsBound, above, below}
use tempo_zk_rollup.BlockStore.List.Listed.{own_key-to_key}
use tempo_zk_rollup.BlockStore.List.Blocks.{in_order, blocks, blocks_in, into_iterator_lem}

-- The last `n` of a list.
abbrev pub take_last : {A : Type 0} → ℕ → List A → List A
take_last n xs = reverse (take n (reverse xs))

-- A height comes after the cursor, or before it, in an order.
abbrev pub follows : BlockListOrder → CursorChoiceAfter BlockHeight → BlockHeight → Bool
follows lowest_to_highest a h = above (After.to_bound a) h
follows highest_to_lowest a h = below (After.to_bound a) h

abbrev pub precedes : BlockListOrder → CursorChoiceBefore BlockHeight → BlockHeight → Bool
precedes lowest_to_highest b h = below (Before.to_bound b) h
precedes highest_to_lowest b h = above (Before.to_bound b) h

-- A page: the first blocks after the cursor, or the last ones before it.
abbrev pub page :
    {B : Type 0}
    → Option (CursorChoice BlockHeight)
    → BlockListOrder
    → ℕ
    → List (BlockHeight × B)
    → List (BlockHeight × B)
page none order limit ps = take limit ps
page (some (CursorChoice.after a)) order limit ps =
    take limit (filter (λ p. follows order a p.0) ps)
page (some (CursorChoice.before b)) order limit ps =
    take_last limit (filter (λ p. precedes order b p.0) ps)

abbrev pub IsCursor : Option (CursorChoice BlockHeight) → Type 0
IsCursor none = Unit
IsCursor (some c) = Choice.inner c < 2 ^ 64

module _ {A : Type 0} where
  collect_results-map :
      {C : Type 0} (f : A → C) (xs : List A)
      → collect_results (map (λ x. ok (f x)) xs) ≡ ok (map f xs)
  collect_results-map f [] = refl
  collect_results-map f (x ∷ xs) = rw (collect_results-map f xs)

module _ {B Txn : Type 0} (ops : StoredBlock B Txn) (l : Listable) {D : Type 0}
    (db : RocksDb D) where
  own_keys :
      (ps : List (BlockHeight × B)) → map (λ p. own_key ops l (to_key l p.0, p.1)) ps ≡ map ok ps
  own_keys [] = refl
  own_keys (p ∷ ps) = ap₂ (λ x y. x ∷ y) (own_key-to_key ops l p) (own_keys ps)

  map-map :
      {A C E : Type 0} (f : A → C) (g : C → E) (xs : List A)
      → map g (map f xs) ≡ map (λ x. g (f x)) xs
  map-map f g [] = refl
  map-map f g (x ∷ xs) = ap (λ t. g (f x) ∷ t) (map-map f g xs)

  abbrev keyed : BlockHeight × B → Key × B
  keyed p = (to_key l p.0, p.1)

  -- The entries that a request takes.
  taken_lem :
      (d : D) (start end : Bound BlockHeight) (order : BlockListOrder) (limit : ℕ)
      → IsStore ops db d
      → IsBound start
      → IsBound end
      → collect_results (take limit (into_iterator ops db d (list_request l start end order)))
        ≡ ok (map keyed (take limit (in_order order (blocks_in ops l db d start end))))
  taken_lem d start end order limit s a b =
      ap (λ t. collect_results (take limit t)) (into_iterator_lem ops l db d start end order s a b)
      ∙ ap collect_results
          (take-map (λ p. ok (keyed p)) limit (in_order order (blocks_in ops l db d start end)))
      ∙ collect_results-map keyed (take limit (in_order order (blocks_in ops l db d start end)))

  -- What `list_paginated` does with them.
  abbrev finish :
      Bool → StoreResult (List (Key × B)) → StoreResult (List (StoreResult (BlockHeight × B)))
  finish reversed r =
      r
      >>= (λ results. ok (if reversed then reverse results else results))
      >>= (λ results. ok (map (own_key ops l) results))

  finish_lem :
      (reversed : Bool) (ps : List (BlockHeight × B))
      → finish reversed (ok (map keyed ps)) ≡ ok (map ok (if reversed then reverse ps else ps))
  finish_lem true ps = ap ok (
      ap (map (own_key ops l)) (sym (map-reverse keyed ps))
      ∙ map-map keyed (own_key ops l) (reverse ps)
      ∙ own_keys (reverse ps))
  finish_lem false ps = ap ok (map-map keyed (own_key ops l) ps ∙ own_keys ps)

  -- The page of a request, reversed or not.
  request_lem :
      (d : D) (start end : Bound BlockHeight) (order : BlockListOrder) (limit : ℕ) (reversed : Bool)
      → IsStore ops db d
      → IsBound start
      → IsBound end
      → (ps : List (BlockHeight × B))
      → (if reversed
          then reverse (take limit (in_order order (blocks_in ops l db d start end)))
          else take limit (in_order order (blocks_in ops l db d start end)))
        ≡ ps
      → finish reversed
          (collect_results (take limit (into_iterator ops db d (list_request l start end order))))
        ≡ ok (map ok ps)
  request_lem d start end order limit reversed s a b ps q =
      ap (finish reversed) (taken_lem d start end order limit s a b)
      ∙ finish_lem reversed (take limit (in_order order (blocks_in ops l db d start end)))
      ∙ ap (λ t. ok (map ok t)) q

  after_IsBound :
      (a : CursorChoiceAfter BlockHeight) → After.inner a < 2 ^ 64 → IsBound (After.to_bound a)
  after_IsBound (CursorChoiceAfter.after h) b = b
  after_IsBound (CursorChoiceAfter.after_inclusive h) b = b

  before_IsBound :
      (c : CursorChoiceBefore BlockHeight) → Before.inner c < 2 ^ 64 → IsBound (Before.to_bound c)
  before_IsBound (CursorChoiceBefore.before h) b = b
  before_IsBound (CursorChoiceBefore.before_inclusive h) b = b

  blocks_in-above :
      (d : D) (start : Bound BlockHeight)
      → blocks_in ops l db d start unbounded ≡ filter (λ p. above start p.0) (blocks ops l db d)
  blocks_in-above d start = filter_cong _ _ (blocks ops l db d) (λ p. ground arith)

  blocks_in-all : (d : D) → blocks_in ops l db d unbounded unbounded ≡ blocks ops l db d
  blocks_in-all d = filter_all (blocks ops l db d)

  -- Where every entry of the database is one of the store, and the position of the cursor is a
  -- `u64`, `list_paginated` succeeds, without errors among its items. It gives the first blocks
  -- of the store in the order asked for, up to the limit; with a cursor after a position, the
  -- first of those that follow it; with one before a position, the last of those that precede
  -- it.
  pub list_paginated-page :
      (d : D) (cursor : Option (CursorChoice BlockHeight)) (order : BlockListOrder) (limit : ℕ)
      → IsStore ops db d
      → IsCursor cursor
      → list_paginated ops db l d cursor order limit
        ≡ ok (map ok (page cursor order limit (in_order order (blocks ops l db d))))
  unfolding list_paginated list_keys_paginated
  list_paginated-page d none lowest_to_highest limit s c =
      request_lem d unbounded unbounded lowest_to_highest limit false s tt tt _
        (ap (take limit) (blocks_in-all d))
  list_paginated-page d none highest_to_lowest limit s c =
      request_lem d unbounded unbounded highest_to_lowest limit false s tt tt _
        (ap (λ t. take limit (reverse t)) (blocks_in-all d))
  list_paginated-page d (some (CursorChoice.after a)) lowest_to_highest limit s c =
      request_lem d (After.to_bound a) unbounded lowest_to_highest limit false s (after_IsBound a c)
        tt _ (ap (take limit) (blocks_in-above d (After.to_bound a)))
  list_paginated-page d (some (CursorChoice.after a)) highest_to_lowest limit s c =
      request_lem d unbounded (After.to_bound a) highest_to_lowest limit false s tt
        (after_IsBound a c) _
        (ap (take limit)
          (sym (filter-reverse (λ p. below (After.to_bound a) p.0) (blocks ops l db d))))
  list_paginated-page d (some (CursorChoice.before b)) lowest_to_highest limit s c =
      request_lem d unbounded (Before.to_bound b) highest_to_lowest limit true s tt
        (before_IsBound b c) _ refl
  list_paginated-page d (some (CursorChoice.before b)) highest_to_lowest limit s c =
      request_lem d (Before.to_bound b) unbounded lowest_to_highest limit true s
        (before_IsBound b c) tt _
        (ap (λ t. reverse (take limit t))
          (blocks_in-above d (Before.to_bound b)
            ∙ sym (
                ap reverse (filter-reverse (λ p. above (Before.to_bound b) p.0) (blocks ops l db d))
                ∙ reverse-reverse _)))
