-- ===== src/Primitives/Pagination.antt =====
-- The paginator: pkg/primitives/src/pagination.rs.
use tempo_zk_rollup.Base.{◌≡◌, refl, List, [], ◌∷◌, Option, none, some, arith}
use tempo_zk_rollup.Primitives.Cursor.{Cursor, CursorChoiceAfter, CursorChoiceBefore}

abbrev pub or_else : {A : Type 0} → Option A → Option A → Option A
or_else none b = b
or_else (some a) b = some a

abbrev pub map_option : {A B : Type 0} → (A → B) → Option A → Option B
map_option f none = none
map_option f (some a) = some (f a)

module _ {Item Pos : Type 0} (item_to_pos : Item → Option Pos) where
  -- What `Paginator::next` does to the cursor for an item.
  unfoldable pub next : Cursor Pos → Item → Cursor Pos
  next c item = elim (item_to_pos item) [
    | none ↦ c
    | some pos ↦ record {
      before = elim c.before [ none ↦ some (CursorChoiceBefore.before pos) | some b ↦ some b ];
      after = some (CursorChoiceAfter.after pos);
    }
  ]

  -- The iteration of `collect` from a cursor.
  unfoldable pub collect_from : Cursor Pos → List Item → Cursor Pos × List Item
  unfolding next
  collect_from c [] = (c, [])
  collect_from c (item ∷ items) =
      let (c', rest) = collect_from (next c item) items in (c', item ∷ rest)

  -- `Paginator::new` and `collect`.
  unfoldable pub collect : List Item → Cursor Pos × List Item
  unfolding collect_from
  collect items = collect_from (record { after = none; before = none }) items

  -- The first position among the items, and the last one.
  abbrev pub first_pos : List Item → Option Pos
  first_pos [] = none
  first_pos (item ∷ items) =
      let rest = first_pos items in elim (item_to_pos item) [ none ↦ rest | some p ↦ some p ]

  abbrev pub last_pos : List Item → Option Pos
  last_pos [] = none
  last_pos (item ∷ items) =
      let rest = last_pos items in elim rest [ none ↦ item_to_pos item | some p ↦ some p ]

  collect_from_lem :
      (items : List Item) (c : Cursor Pos)
      → ((collect_from c items).1 ≡ items)
        × ((collect_from c items).0.before
            ≡ or_else c.before (map_option CursorChoiceBefore.before (first_pos items)))
        × ((collect_from c items).0.after
            ≡ or_else (map_option CursorChoiceAfter.after (last_pos items)) c.after)
  unfolding collect_from next
  collect_from_lem [] c = (refl, right_none c.before, refl)
    where
      right_none : {A : Type 0} (o : Option A) → o ≡ or_else o none
      right_none none = refl
      right_none (some a) = refl
  collect_from_lem (item ∷ items) c = ground (arith, collect_from_lem items (next c item))

  -- `collect` gives all items in their order; the cursor before them is at the first position
  -- among the items and the one after them at the last, and without a position there is none.
  pub collect_lem :
      (items : List Item)
      → ((collect items).1 ≡ items)
        × ((collect items).0.before ≡ map_option CursorChoiceBefore.before (first_pos items))
        × ((collect items).0.after ≡ map_option CursorChoiceAfter.after (last_pos items))
  unfolding collect
  collect_lem items =
      ground (arith, collect_from_lem items (record { after = none; before = none }))
