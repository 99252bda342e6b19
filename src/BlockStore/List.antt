-- ===== src/BlockStore/List.antt =====
-- The lists of blocks: pkg/block-store/src/list.rs, and `ListableKey` of
-- pkg/block-store/src/keys.rs. The functions of heights are those of `KeyBlock` or
-- `KeyNonEmptyBlock`, by a `Listable`.
pub mod Blocks
pub mod Listed
pub mod Pages
pub mod Range
pub mod Stored
use tempo_zk_rollup.Base.{
  ℕ, ◌+◌, ◌*◌, ◌-◌, ◌^◌, Bool, true, false, not, List, [], ◌∷◌, Option, none, some, map, reverse,
  take, replicate, if◌then◌else◌,
}
use tempo_zk_rollup.Doomslug.Approval.{BlockHeight}
use tempo_zk_rollup.Primitives.Cursor.{CursorChoice, Bound, included, excluded, unbounded}
use tempo_zk_rollup.Primitives.Cursor.After
use tempo_zk_rollup.Primitives.Cursor.Before
use tempo_zk_rollup.BlockStore.Bytes.{Bytes}
use tempo_zk_rollup.BlockStore.Db.{RocksDb}
use tempo_zk_rollup.BlockStore.Keys.{
  Key, block, max_height, block_hash_to_height, pending_block, txn_by_hash, store_version,
  non_empty_block, StoreResult, ok, invalid_key, wire_message, serialize,
  serialize_immediate_successor, deserialize,
}
use tempo_zk_rollup.BlockStore.Store.{StoredBlock, ◌>>=◌}

pub data BlockListOrder : Type 0 where
  lowest_to_highest : BlockListOrder
  highest_to_lowest : BlockListOrder

abbrev pub is_indexed_order : BlockListOrder → Bool
is_indexed_order lowest_to_highest = true
is_indexed_order highest_to_lowest = false

-- `KeyOrder::reverse`.
abbrev pub reverse_order : BlockListOrder → BlockListOrder
reverse_order lowest_to_highest = highest_to_lowest
reverse_order highest_to_lowest = lowest_to_highest

-- The two keys that implement `ListableKey`.
pub data Listable : Type 0 where
  key_block : Listable
  key_non_empty_block : Listable

abbrev pub to_key : Listable → BlockHeight → Key
to_key key_block h = block h
to_key key_non_empty_block h = non_empty_block h

abbrev pub min_value : Listable → BlockHeight
min_value l = 0

abbrev pub max_value : Listable → BlockHeight
max_value l = 2 ^ 64 - 1

-- `List`, less the database and the type of its values.
pub record ListRequest : Type 0 where
  pub start_key : Key
  pub end_key : Key
  pub lower_exclusive : Bool
  pub upper_inclusive : Bool
  pub start_to_end : Bool

abbrev pub bound_or : BlockHeight → Bound BlockHeight → BlockHeight
bound_or default (included h) = h
bound_or default (excluded h) = h
bound_or default unbounded = default

abbrev pub is_excluded : Bound BlockHeight → Bool
is_excluded (included h) = false
is_excluded (excluded h) = true
is_excluded unbounded = false

-- `ListableKey::list`.
abbrev pub list_request :
    Listable → Bound BlockHeight → Bound BlockHeight → BlockListOrder → ListRequest
list_request l start end order = record {
  start_key = to_key l (bound_or (min_value l) start);
  end_key = to_key l (bound_or (max_value l) end);
  lower_exclusive = is_excluded start;
  upper_inclusive = not (is_excluded end);
  start_to_end = is_indexed_order order;
}

-- The bounds of a cursor, and whether it is one before a position.
abbrev pub cursor_bounds :
    Option (CursorChoice BlockHeight) → Bound BlockHeight × Bound BlockHeight × Bool
cursor_bounds none = (unbounded, unbounded, false)
cursor_bounds (some (CursorChoice.before b)) = (unbounded, Before.to_bound b, true)
cursor_bounds (some (CursorChoice.after a)) = (After.to_bound a, unbounded, false)

-- `collect` of an iterator of results.
abbrev pub collect_results : {A : Type 0} → List (StoreResult A) → StoreResult (List A)
collect_results [] = ok []
collect_results (r ∷ rs) = let rest = collect_results rs in do a ← r; as' ← rest; ok (a ∷ as')

module _ {B Txn : Type 0} (ops : StoredBlock B Txn) where
  -- `StoreValue::deserialize` of a block.
  abbrev pub deserialize_block : Bytes → StoreResult B
  deserialize_block bytes = elim (ops.from_bytes bytes) [ none ↦ wire_message | some b ↦ ok b ]

  -- The item of an entry.
  abbrev pub item : Bytes × Bytes → StoreResult (Key × B)
  item (key, value) = do k ← deserialize key; b ← deserialize_block value; ok (k, b)

  -- The closures of `list` and `list_non_empty`, which keep the key of their kind only.
  abbrev pub own_key : Listable → Key × B → StoreResult (BlockHeight × B)
  own_key key_block (block h, b) = ok (h, b)
  own_key key_block (max_height, b) = invalid_key
  own_key key_block (block_hash_to_height hash, b) = invalid_key
  own_key key_block (pending_block, b) = invalid_key
  own_key key_block (txn_by_hash hash, b) = invalid_key
  own_key key_block (store_version, b) = invalid_key
  own_key key_block (non_empty_block h, b) = invalid_key
  own_key key_non_empty_block (block h, b) = invalid_key
  own_key key_non_empty_block (max_height, b) = invalid_key
  own_key key_non_empty_block (block_hash_to_height hash, b) = invalid_key
  own_key key_non_empty_block (pending_block, b) = invalid_key
  own_key key_non_empty_block (txn_by_hash hash, b) = invalid_key
  own_key key_non_empty_block (store_version, b) = invalid_key
  own_key key_non_empty_block (non_empty_block h, b) = ok (h, b)

  module _ {D : Type 0} (db : RocksDb D) where
    -- `List::into_iterator`.
    unfoldable pub into_iterator : D → ListRequest → List (StoreResult (Key × B))
    into_iterator d r =
        let lower_bound =
          if r.lower_exclusive
          then serialize_immediate_successor r.start_key
          else serialize r.start_key in
        let upper_bound =
          if r.upper_inclusive
          then serialize_immediate_successor r.end_key
          else serialize r.end_key in
        let entries = db.iterator_opt d lower_bound upper_bound in
        map item (if r.start_to_end then entries else reverse entries)

    -- `BlockStore::list` and `list_non_empty`.
    unfoldable pub list :
        Listable
        → D
        → Bound BlockHeight
        → Bound BlockHeight
        → BlockListOrder
        → List (StoreResult (BlockHeight × B))
    unfolding into_iterator
    list l d start end order =
        map (λ r. r >>= own_key l) (into_iterator d (list_request l start end order))

    -- `ListableKey::list_paginated`.
    unfoldable pub list_keys_paginated :
        Listable
        → D
        → Option (CursorChoice BlockHeight)
        → BlockListOrder
        → ℕ
        → StoreResult (List (Key × B))
    unfolding into_iterator
    list_keys_paginated l d cursor order limit =
        let (first, last, reverse_results) = cursor_bounds cursor in
        let start = if is_indexed_order order then first else last in
        let end = if is_indexed_order order then last else first in
        let order' = if reverse_results then reverse_order order else order in
        do
          results ← collect_results (take limit (into_iterator d (list_request l start end order')))
          ok (if reverse_results then reverse results else results)

    -- `BlockStore::list_paginated` and `list_non_empty_paginated`.
    unfoldable pub list_paginated :
        Listable
        → D
        → Option (CursorChoice BlockHeight)
        → BlockListOrder
        → ℕ
        → StoreResult (List (StoreResult (BlockHeight × B)))
    unfolding list_keys_paginated
    list_paginated l d cursor order limit = do
      results ← list_keys_paginated l d cursor order limit
      ok (map (own_key l) results)

    -- `BlockStore::list_txns`.
    unfoldable pub list_txns : D → List (StoreResult Txn)
    list_txns d =
        map
          (λ (e : Bytes × Bytes). elim (ops.txn_from_bytes e.1) [
            | none ↦ wire_message
            | some t ↦ ok t
          ])
          (db.iterator_opt d (serialize (txn_by_hash (replicate 32 0)))
            (serialize_immediate_successor (txn_by_hash (replicate 32 255))))
