-- ===== src/BlockStore/List/Listed.antt =====
-- The blocks that a list gives: pkg/block-store/src/list.rs.
use tempo_zk_rollup.Base.{
  ℕ, suc, ◌^◌, ◌<◌, ◌≡◌, refl, sym, subst, ap, true, false, ◌∷◌, Option, none, some, arith,
}
use tempo_zk_rollup.Doomslug.Approval.{BlockHeight}
use tempo_zk_rollup.Primitives.Cursor.{Bound, included, excluded, unbounded}
use tempo_zk_rollup.BlockStore.Bytes.{Bytes, bytes_lt}
use tempo_zk_rollup.BlockStore.Keys.{
  Key, block, max_height, block_hash_to_height, pending_block, txn_by_hash, store_version,
  non_empty_block, StoreResult, ok, serialize, serialize_to, IsKey, deserialize,
  deserialize-serialize,
}
use tempo_zk_rollup.BlockStore.Keys
use tempo_zk_rollup.BlockStore.Store.{StoredBlock, ◌>>=◌}
use tempo_zk_rollup.BlockStore.Entries.{IsEntry, IsValue}
use tempo_zk_rollup.BlockStore.List.{
  Listable, key_block, key_non_empty_block, to_key, item, own_key, deserialize_block,
}
use tempo_zk_rollup.BlockStore.List.Range.{in_bounds, upper_bound, lower_bound}

abbrev pub ok_value : {A : Type 0} → StoreResult A → Option A
ok_value (ok a) = some a
ok_value Keys.invalid_key = none
ok_value (Keys.invalid_version n) = none
ok_value Keys.wire_message = none
ok_value Keys.panics = none

upper_bound-key_block :
    (n : ℕ) (bs : Bytes) (end : Bound BlockHeight)
    → bytes_lt (suc n ∷ bs) (upper_bound key_block end) ≡ false
upper_bound-key_block n bs (included e) = ground arith
upper_bound-key_block n bs (excluded e) = ground arith
upper_bound-key_block n bs unbounded = ground arith

in_bounds-key_block :
    (n : ℕ) (bs : Bytes) (start end : Bound BlockHeight)
    → in_bounds key_block start end (suc n ∷ bs) ≡ false
in_bounds-key_block n bs start end = ground (arith, upper_bound-key_block n bs end)

lower_bound-key_non_empty_block :
    (n : ℕ) (bs : Bytes) (start : Bound BlockHeight)
    → n < 6
    → bytes_lt (n ∷ bs) (lower_bound key_non_empty_block start) ≡ true
lower_bound-key_non_empty_block n bs (included e) h = ground arith
lower_bound-key_non_empty_block n bs (excluded e) h = ground arith
lower_bound-key_non_empty_block n bs unbounded h = ground arith

in_bounds-key_non_empty_block :
    (n : ℕ) (bs : Bytes) (start end : Bound BlockHeight)
    → n < 6
    → in_bounds key_non_empty_block start end (n ∷ bs) ≡ false
in_bounds-key_non_empty_block n bs start end h =
    ground (arith, lower_bound-key_non_empty_block n bs start h)

pub deserialize_block-to_bytes :
    {B Txn : Type 0} (ops : StoredBlock B Txn) (b : B)
    → deserialize_block ops (ops.to_bytes b) ≡ ok b
deserialize_block-to_bytes ops b = rw (deserialize_block, ops.from_bytes-to_bytes b)

pub own_key-to_key :
    {B Txn : Type 0} (ops : StoredBlock B Txn) (l : Listable) (p : BlockHeight × B)
    → own_key ops l (to_key l p.0, p.1) ≡ ok p
own_key-to_key ops key_block p = refl
own_key-to_key ops key_non_empty_block p = refl

module _ {B Txn : Type 0} (ops : StoredBlock B Txn) (l : Listable) where
  -- The height and the block of an entry, where its key is of the kind.
  abbrev pub entry_block : Bytes × Bytes → Option (BlockHeight × B)
  entry_block e = ok_value (item ops e >>= own_key ops l)

  -- An entry is one of the kind, or it has another key and does not pass the bounds.
  pub data Listing (start end : Bound BlockHeight) (e : Bytes × Bytes) : Type 0 where
    listed :
        (p : BlockHeight × B)
        → p.0 < 2 ^ 64
        → e.0 ≡ serialize (to_key l p.0)
        → e.1 ≡ ops.to_bytes p.1
        → ops.block_height p.1 ≡ p.0
        → item ops e ≡ ok (to_key l p.0, p.1)
        → Listing start end e
    other : entry_block e ≡ none → in_bounds l start end e.0 ≡ false → Listing start end e

  other-key :
      (start end : Bound BlockHeight) (k : Key) (v : Bytes)
      → IsKey k
      → ((b : B) → ok_value (own_key ops l (k, b)) ≡ none)
      → in_bounds l start end (serialize k) ≡ false
      → Listing start end (serialize k, v)
  other-key start end k v h f q =
      other (rw (deserialize-serialize k h) (decoded (ops.from_bytes v))) q
    where
      decoded :
          (o : Option B)
          → ok_value (
              elim o [ none ↦ Keys.wire_message | some b ↦ ok b ]
              >>= (λ b. ok (k, b))
              >>= own_key ops l)
            ≡ none
      decoded none = refl
      decoded (some b) = f b

  own :
      (start end : Bound BlockHeight) (h : BlockHeight) (b : B)
      → IsKey (to_key l h)
      → h < 2 ^ 64
      → ops.block_height b ≡ h
      → Listing start end (serialize (to_key l h), ops.to_bytes b)
  own start end h b k u q =
      listed (h, b) u refl refl q
        (rw (deserialize-serialize (to_key l h) k)
          (ap (λ r. r >>= (λ b'. ok (to_key l h, b'))) (deserialize_block-to_bytes ops b)))

module _ {B Txn : Type 0} (ops : StoredBlock B Txn) (start end : Bound BlockHeight) where
  Listing-key :
      (l : Listable) (k : Key) (v : Bytes)
      → IsKey k
      → IsValue ops k v
      → Listing ops l start end (serialize k, v)
  Listing-key key_block (block h) v k (b, q, e) =
      subst (λ w. Listing ops key_block start end (serialize (block h), w)) (sym e)
        (own ops key_block start end h b k k q)
  Listing-key key_non_empty_block (non_empty_block h) v k (b, q, e) =
      subst (λ w. Listing ops key_non_empty_block start end (serialize (non_empty_block h), w))
        (sym e) (own ops key_non_empty_block start end h b k k q)
  Listing-key key_non_empty_block (block h) v k w =
      other-key ops key_non_empty_block start end (block h) v k (λ b. refl)
        (in_bounds-key_non_empty_block 0 (serialize_to (block h)) start end (omega arith))
  Listing-key key_block max_height v k w =
      other-key ops key_block start end max_height v k (λ b. refl)
        (in_bounds-key_block 0 (serialize_to max_height) start end)
  Listing-key key_non_empty_block max_height v k w =
      other-key ops key_non_empty_block start end max_height v k (λ b. refl)
        (in_bounds-key_non_empty_block 1 (serialize_to max_height) start end (omega arith))
  Listing-key key_block (block_hash_to_height hash) v k w =
      other-key ops key_block start end (block_hash_to_height hash) v k (λ b. refl)
        (in_bounds-key_block 1 (serialize_to (block_hash_to_height hash)) start end)
  Listing-key key_non_empty_block (block_hash_to_height hash) v k w =
      other-key ops key_non_empty_block start end (block_hash_to_height hash) v k (λ b. refl)
        (in_bounds-key_non_empty_block 2 (serialize_to (block_hash_to_height hash)) start end
          (omega arith))
  Listing-key key_block pending_block v k w =
      other-key ops key_block start end pending_block v k (λ b. refl)
        (in_bounds-key_block 2 (serialize_to pending_block) start end)
  Listing-key key_non_empty_block pending_block v k w =
      other-key ops key_non_empty_block start end pending_block v k (λ b. refl)
        (in_bounds-key_non_empty_block 3 (serialize_to pending_block) start end (omega arith))
  Listing-key key_block (txn_by_hash hash) v k w =
      other-key ops key_block start end (txn_by_hash hash) v k (λ b. refl)
        (in_bounds-key_block 3 (serialize_to (txn_by_hash hash)) start end)
  Listing-key key_non_empty_block (txn_by_hash hash) v k w =
      other-key ops key_non_empty_block start end (txn_by_hash hash) v k (λ b. refl)
        (in_bounds-key_non_empty_block 4 (serialize_to (txn_by_hash hash)) start end (omega arith))
  Listing-key key_block store_version v k w =
      other-key ops key_block start end store_version v k (λ b. refl)
        (in_bounds-key_block 4 (serialize_to store_version) start end)
  Listing-key key_non_empty_block store_version v k w =
      other-key ops key_non_empty_block start end store_version v k (λ b. refl)
        (in_bounds-key_non_empty_block 5 (serialize_to store_version) start end (omega arith))
  Listing-key key_block (non_empty_block h) v k w =
      other-key ops key_block start end (non_empty_block h) v k (λ b. refl)
        (in_bounds-key_block 5 (serialize_to (non_empty_block h)) start end)

  pub IsEntry-Listing :
      (l : Listable) (e : Bytes × Bytes) → IsEntry ops e → Listing ops l start end e
  IsEntry-Listing l (k, v) (key, h, q, w) =
      subst (λ x. Listing ops l start end (x, v)) (sym q) (Listing-key l key v h w)
