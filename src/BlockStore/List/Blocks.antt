-- ===== src/BlockStore/List/Blocks.antt =====
-- A list is a range of the blocks of the store: pkg/block-store/src/list.rs.
use tempo_zk_rollup.Base.{
  ◌≡◌, refl, sym, ap, ap₂, ◌∙◌, List, ◌∷◌, [], All, filter_map, map, map-reverse, reverse, filter,
  if◌then◌else◌, arith,
}
use tempo_zk_rollup.Doomslug.Approval.{BlockHeight}
use tempo_zk_rollup.Primitives.Cursor.{Bound}
use tempo_zk_rollup.BlockStore.Bytes.{Bytes}
use tempo_zk_rollup.BlockStore.Db.{RocksDb}
use tempo_zk_rollup.BlockStore.Keys.{Key, StoreResult, ok}
use tempo_zk_rollup.BlockStore.Store.{StoredBlock, ◌>>=◌}
use tempo_zk_rollup.BlockStore.Entries.{IsEntry, IsStore, IsStore-All}
use tempo_zk_rollup.BlockStore.List.{
  Listable, to_key, BlockListOrder, is_indexed_order, item, own_key, into_iterator, list,
  list_request,
}
use tempo_zk_rollup.BlockStore.List.Range.{
  IsBound, in_range, in_bounds, lower_bound, upper_bound, in_bounds-to_key,
}
use tempo_zk_rollup.BlockStore.List.Listed.{
  ok_value, entry_block, listed, other, IsEntry-Listing, own_key-to_key,
}

-- The blocks in the order of a list.
abbrev pub in_order : {A : Type 0} → BlockListOrder → List A → List A
in_order order xs = if is_indexed_order order then xs else reverse xs

map-in_order :
    {A C : Type 0} (f : A → C) (order : BlockListOrder) (xs : List A)
    → map f (in_order order xs) ≡ in_order order (map f xs)
map-in_order f order xs = ground (arith, map-reverse f xs)

module _ {B Txn : Type 0} (ops : StoredBlock B Txn) (l : Listable) where
  abbrev pub with_key : BlockHeight × B → StoreResult (Key × B)
  with_key p = ok (to_key l p.0, p.1)

  module _ (start end : Bound BlockHeight) (a : IsBound start) (b : IsBound end) where
    item_lem :
        (e : Bytes × Bytes) (es : List (Bytes × Bytes))
        → IsEntry ops e
        → map (item ops) (filter (λ x. in_bounds l start end x.0) es)
          ≡ map with_key (filter (λ p. in_range start end p.0) (filter_map (entry_block ops l) es))
        → map (item ops) (filter (λ x. in_bounds l start end x.0) (e ∷ es))
          ≡ map with_key
              (filter (λ p. in_range start end p.0) (filter_map (entry_block ops l) (e ∷ es)))
    item_lem e es h rest = elim (IsEntry-Listing ops start end l e h) [
      | listed p u q w x i ↦ ground (
        arith,
        rest,
        i,
        ap (λ k. in_bounds l start end k) q ∙ in_bounds-to_key l start end p.0 a b u,
        ap (λ r. ok_value (r >>= own_key ops l)) i ∙ ap ok_value (own_key-to_key ops l p),
      )
      | other n q ↦ ground (arith, rest, n, q)
    ]

    pub entries_lem :
        (es : List (Bytes × Bytes))
        → All (IsEntry ops) es
        → map (item ops) (filter (λ x. in_bounds l start end x.0) es)
          ≡ map with_key (filter (λ p. in_range start end p.0) (filter_map (entry_block ops l) es))
    entries_lem [] h = refl
    entries_lem (e ∷ es) h = item_lem e es h.0 (entries_lem es h.1)

  -- The closure of a list takes the keys off.
  own_key-with_key :
      (ps : List (BlockHeight × B)) → map (λ r. r >>= own_key ops l) (map with_key ps) ≡ map ok ps
  own_key-with_key [] = refl
  own_key-with_key (p ∷ ps) = ap₂ (λ x y. x ∷ y) (own_key-to_key ops l p) (own_key-with_key ps)

  module _ {D : Type 0} (db : RocksDb D) where
    -- The blocks under the keys of the kind.
    abbrev pub blocks : D → List (BlockHeight × B)
    blocks d = filter_map (entry_block ops l) (db.entries d)

    abbrev pub entries_in : D → Bound BlockHeight → Bound BlockHeight → List (Bytes × Bytes)
    entries_in d start end = filter (λ e. in_bounds l start end e.0) (db.entries d)

    -- The blocks of the store in a range.
    abbrev pub blocks_in : D → Bound BlockHeight → Bound BlockHeight → List (BlockHeight × B)
    blocks_in d start end = filter (λ p. in_range start end p.0) (blocks d)

    pub into_iterator_lem :
        (d : D) (start end : Bound BlockHeight) (order : BlockListOrder)
        → IsStore ops db d
        → IsBound start
        → IsBound end
        → into_iterator ops db d (list_request l start end order)
          ≡ map with_key (in_order order (blocks_in d start end))
    unfolding into_iterator
    into_iterator_lem d start end order s a b =
        ap (λ es. map (item ops) (in_order order es))
          (db.iterator_opt-entries d (lower_bound l start) (upper_bound l end))
        ∙ map-in_order (item ops) order (entries_in d start end)
        ∙ ap (in_order order) (entries_lem start end a b (db.entries d) (IsStore-All ops db d s))
        ∙ sym (map-in_order with_key order (blocks_in d start end))

    -- A list gives the blocks of the store in its range, in its order, and no errors.
    pub list_lem :
        (d : D) (start end : Bound BlockHeight) (order : BlockListOrder)
        → IsStore ops db d
        → IsBound start
        → IsBound end
        → list ops db l d start end order ≡ map ok (in_order order (blocks_in d start end))
    unfolding list
    list_lem d start end order s a b =
        ap (map (λ r. r >>= own_key ops l)) (into_iterator_lem d start end order s a b)
        ∙ own_key-with_key (in_order order (blocks_in d start end))
