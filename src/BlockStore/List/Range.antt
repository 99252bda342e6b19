-- ===== src/BlockStore/List/Range.antt =====
-- The bounds of a list in the database, and the heights that they let through:
-- pkg/block-store/src/list.rs and keys.rs.
use tempo_zk_rollup.Base.{
  suc, ◌-◌, ◌^◌, ◌<◌, ◌≡◌, refl, sym, ap, ◌∙◌, Bool, true, false, not, ◌&&◌, length, ltb,
  if◌then◌else◌, arith,
}
use tempo_zk_rollup.Doomslug.Approval.{BlockHeight}
use tempo_zk_rollup.Primitives.Cursor.{Bound, included, excluded, unbounded}
use tempo_zk_rollup.BlockStore.Bytes.{
  Bytes, bytes_lt, length-to_be_bytes, u64-HasBytes, bytes_lt-to_be_bytes, bytes_lt-successor,
}
use tempo_zk_rollup.BlockStore.Keys.{serialize, serialize_immediate_successor, serialize_to}
use tempo_zk_rollup.BlockStore.List.{
  Listable, key_block, key_non_empty_block, to_key, min_value, max_value, bound_or, is_excluded,
}

abbrev pub IsBound : Bound BlockHeight → Type 0
IsBound (included h) = h < 2 ^ 64
IsBound (excluded h) = h < 2 ^ 64
IsBound unbounded = Unit

-- Whether a height is within the bounds.
abbrev pub above : Bound BlockHeight → BlockHeight → Bool
above (included s) h = not (ltb h s)
above (excluded s) h = ltb s h
above unbounded h = true

abbrev pub below : Bound BlockHeight → BlockHeight → Bool
below (included e) h = not (ltb e h)
below (excluded e) h = ltb h e
below unbounded h = true

abbrev pub in_range : Bound BlockHeight → Bound BlockHeight → BlockHeight → Bool
in_range start end h = above start h && below end h

abbrev pub lower_bound : Listable → Bound BlockHeight → Bytes
lower_bound l start =
    if is_excluded start
    then serialize_immediate_successor (to_key l (bound_or (min_value l) start))
    else serialize (to_key l (bound_or (min_value l) start))

abbrev pub upper_bound : Listable → Bound BlockHeight → Bytes
upper_bound l end =
    if not (is_excluded end)
    then serialize_immediate_successor (to_key l (bound_or (max_value l) end))
    else serialize (to_key l (bound_or (max_value l) end))

-- The test of an entry's key by the database.
abbrev pub in_bounds : Listable → Bound BlockHeight → Bound BlockHeight → Bytes → Bool
in_bounds l start end k = not (bytes_lt k (lower_bound l start)) && bytes_lt k (upper_bound l end)

pub bytes_lt-to_key :
    (l : Listable) (h k : BlockHeight)
    → h < 2 ^ 64
    → k < 2 ^ 64
    → bytes_lt (serialize (to_key l h)) (serialize (to_key l k)) ≡ ltb h k
unfolding serialize_to
bytes_lt-to_key key_block h k a b = bytes_lt-to_be_bytes 8 h k (u64-HasBytes h a) (u64-HasBytes k b)
bytes_lt-to_key key_non_empty_block h k a b =
    bytes_lt-to_be_bytes 8 h k (u64-HasBytes h a) (u64-HasBytes k b)

length-serialize : (l : Listable) (h : BlockHeight) → length (serialize (to_key l h)) ≡ 9
unfolding serialize_to
length-serialize key_block h = ap suc (length-to_be_bytes 8 h)
length-serialize key_non_empty_block h = ap suc (length-to_be_bytes 8 h)

bytes_lt-immediate_successor :
    (l : Listable) (h k : BlockHeight)
    → h < 2 ^ 64
    → k < 2 ^ 64
    → bytes_lt (serialize (to_key l h)) (serialize_immediate_successor (to_key l k)) ≡ not (ltb k h)
bytes_lt-immediate_successor l h k a b =
    bytes_lt-successor (serialize (to_key l h)) (serialize (to_key l k))
      (length-serialize l h ∙ sym (length-serialize l k))
    ∙ ap not (bytes_lt-to_key l k h b a)

not-not : (b : Bool) → not (not b) ≡ b
not-not true = refl
not-not false = refl

above_lem :
    (l : Listable) (start : Bound BlockHeight) (h : BlockHeight)
    → IsBound start
    → h < 2 ^ 64
    → not (bytes_lt (serialize (to_key l h)) (lower_bound l start)) ≡ above start h
above_lem l (included s) h b k = ap not (bytes_lt-to_key l h s k b)
above_lem l (excluded s) h b k = ap not (bytes_lt-immediate_successor l h s k b) ∙ not-not (ltb s h)
above_lem l unbounded h b k = ap not (bytes_lt-to_key l h 0 k (omega arith)) ∙ ground arith

below_lem :
    (l : Listable) (end : Bound BlockHeight) (h : BlockHeight)
    → IsBound end
    → h < 2 ^ 64
    → bytes_lt (serialize (to_key l h)) (upper_bound l end) ≡ below end h
below_lem l (included e) h b k = bytes_lt-immediate_successor l h e k b
below_lem l (excluded e) h b k = bytes_lt-to_key l h e k b
below_lem l unbounded h b k =
    bytes_lt-immediate_successor l h (2 ^ 64 - 1) k (omega arith) ∙ ground arith

-- The bounds let through the heights of the range.
pub in_bounds-to_key :
    (l : Listable) (start end : Bound BlockHeight) (h : BlockHeight)
    → IsBound start
    → IsBound end
    → h < 2 ^ 64
    → in_bounds l start end (serialize (to_key l h)) ≡ in_range start end h
in_bounds-to_key l start end h a b k = rw (above_lem l start h a k, below_lem l end h b k)
