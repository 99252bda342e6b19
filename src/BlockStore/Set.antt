-- ===== src/BlockStore/Set.antt =====
-- What `set` does to the answers of the block store: pkg/block-store/src/lib.rs.
use tempo_zk_rollup.Base.{
  ℕ, ◌^◌, ◌<◌, ◌≡◌, refl, ap, ◌∙◌, false, List, [], ◌∷◌, ◌++◌, Option, none, some, map-append, ◌==◌,
  if◌then◌else◌, arith,
}
use tempo_zk_rollup.Doomslug.Approval.{BlockHeight}
use tempo_zk_rollup.BlockStore.Bytes.{Bytes, to_be_bytes, from_be_bytes-to_be_bytes, u64-HasBytes}
use tempo_zk_rollup.BlockStore.Db.{bytes_beq, bytes_beq_iff, last_put}
use tempo_zk_rollup.BlockStore.Keys.{
  Key, block, max_height, block_hash_to_height, txn_by_hash, ok, serialize, serialize_to,
}
use tempo_zk_rollup.BlockStore.Store.{
  StoredBlock, decode, txn_entries, non_empty_entry, max_height_entry, set_entries, puts,
}

pub last_put-append :
    (k : Bytes) (xs ys : List (Bytes × Bytes)) (old : Option Bytes)
    → last_put k (xs ++ ys) old ≡ last_put k ys (last_put k xs old)
last_put-append k [] ys old = refl
last_put-append k ((j, v) ∷ xs) ys old =
    last_put-append k xs ys (if bytes_beq j k then some v else old)

to_be_bytes_beq :
    (x y : ℕ) → x < 2 ^ 64 → y < 2 ^ 64 → bytes_beq (to_be_bytes 8 x) (to_be_bytes 8 y) ≡ (x == y)
to_be_bytes_beq x y h k = ground (
  arith,
  bytes_beq_iff (to_be_bytes 8 x) (to_be_bytes 8 y),
  from_be_bytes-to_be_bytes 8 x (u64-HasBytes x h),
  from_be_bytes-to_be_bytes 8 y (u64-HasBytes y k),
)

pub block_beq :
    (x y : ℕ)
    → x < 2 ^ 64
    → y < 2 ^ 64
    → bytes_beq (serialize (block x)) (serialize (block y)) ≡ (x == y)
unfolding serialize_to
block_beq x y h k = to_be_bytes_beq x y h k

module _ {B Txn : Type 0} (ops : StoredBlock B Txn) where
  -- The transaction of a hash after those of a block, `old` being the one before.
  abbrev pub last_txn : Bytes → List Txn → Option Txn → Option Txn
  last_txn hash [] old = old
  last_txn hash (t ∷ ts) old =
      last_txn hash ts (if bytes_beq (ops.txn_hash t) hash then some t else old)

  pub last_put-txn_entries_other :
      (n : ℕ) (k : Bytes) (ts : List Txn) (old : Option Bytes)
      → (4 == n) ≡ false
      → last_put (n ∷ k) (puts ops (txn_entries ops ts)) old ≡ old
  last_put-txn_entries_other n k [] old h = refl
  last_put-txn_entries_other n k (t ∷ ts) old h =
      rw (last_put, h) (last_put-txn_entries_other n k ts old h)

  pub last_put-non_empty_entry_other :
      (n : ℕ) (k : Bytes) (b : B) (ts : List Txn) (old : Option Bytes)
      → (6 == n) ≡ false
      → last_put (n ∷ k) (puts ops (non_empty_entry ops b ts)) old ≡ old
  last_put-non_empty_entry_other n k b [] old h = refl
  last_put-non_empty_entry_other n k b (t ∷ ts) old h = rw (h)

  last_put-max_height_entry_other :
      (n : ℕ) (k : Bytes) (b : B) (m : Option BlockHeight) (old : Option Bytes)
      → (1 == n) ≡ false
      → last_put (n ∷ k) (puts ops (max_height_entry ops b m)) old ≡ old
  last_put-max_height_entry_other n k b none old h = rw (h)
  last_put-max_height_entry_other n k b (some m) old h = ground (arith, h)

  pub puts-append : (xs ys : List (Key × Bytes)) → puts ops (xs ++ ys) ≡ puts ops xs ++ puts ops ys
  puts-append xs ys = map-append (λ (e : Key × Bytes). (serialize e.0, e.1)) xs ys

  -- A batch of `set` is read part by part.
  last_put-set_entries :
      (k : Bytes) (b : B) (m : Option BlockHeight) (old : Option Bytes)
      → last_put k (puts ops (set_entries ops b m)) old
        ≡ last_put k (puts ops (non_empty_entry ops b (ops.txns b))) (
            last_put k (puts ops (txn_entries ops (ops.txns b))) (
              if bytes_beq (serialize (block_hash_to_height (ops.block_hash b))) k
              then some (to_be_bytes 8 (ops.block_height b))
              else last_put k (puts ops (max_height_entry ops b m)) (
                  if bytes_beq (serialize (block (ops.block_height b))) k
                  then some (ops.to_bytes b)
                  else old)))
  last_put-set_entries k b m old =
      ap (λ t. last_put k t old') (puts-append (max_height_entry ops b m) rest)
      ∙ last_put-append k (puts ops (max_height_entry ops b m)) (puts ops rest) old'
      ∙ ap (λ t. last_put k t hash_put)
          (puts-append (txn_entries ops (ops.txns b)) (non_empty_entry ops b (ops.txns b)))
      ∙ last_put-append k (puts ops (txn_entries ops (ops.txns b)))
          (puts ops (non_empty_entry ops b (ops.txns b))) hash_put
    where
      rest : List (Key × Bytes)
      rest =
          (block_hash_to_height (ops.block_hash b), to_be_bytes 8 (ops.block_height b))
          ∷ (txn_entries ops (ops.txns b) ++ non_empty_entry ops b (ops.txns b))

      old' : Option Bytes
      old' =
          if bytes_beq (serialize (block (ops.block_height b))) k
          then some (ops.to_bytes b)
          else old

      hash_put : Option Bytes
      hash_put =
          if bytes_beq (serialize (block_hash_to_height (ops.block_hash b))) k
          then some (to_be_bytes 8 (ops.block_height b))
          else last_put k (puts ops (max_height_entry ops b m)) old'

  pub last_put-block :
      (h : BlockHeight) (b : B) (m : Option BlockHeight) (old : Option Bytes)
      → h < 2 ^ 64
      → last_put (serialize (block h)) (puts ops (set_entries ops b m)) old
        ≡ (if ops.block_height b == h then some (ops.to_bytes b) else old)
  unfolding serialize_to
  last_put-block h b m old l = rw (
    last_put-set_entries (serialize (block h)) b m old,
    last_put-max_height_entry_other 0 (to_be_bytes 8 h) b m,
    last_put-txn_entries_other 0 (to_be_bytes 8 h) (ops.txns b),
    last_put-non_empty_entry_other 0 (to_be_bytes 8 h) b (ops.txns b),
    to_be_bytes_beq (ops.block_height b) h (ops.height_u64 b) l,
  )

  pub last_put-max_height :
      (b : B) (m : Option BlockHeight) (old : Option Bytes)
      → last_put (serialize max_height) (puts ops (set_entries ops b m)) old
        ≡ last_put (serialize max_height) (puts ops (max_height_entry ops b m)) old
  unfolding serialize_to
  last_put-max_height b m old = rw (
    last_put-set_entries (serialize max_height) b m old,
    last_put-txn_entries_other 1 [] (ops.txns b),
    last_put-non_empty_entry_other 1 [] b (ops.txns b),
  )

  pub last_put-block_hash :
      (hash : Bytes) (b : B) (m : Option BlockHeight) (old : Option Bytes)
      → last_put (serialize (block_hash_to_height hash)) (puts ops (set_entries ops b m)) old ≡ (
          if bytes_beq (ops.block_hash b) hash
          then some (to_be_bytes 8 (ops.block_height b))
          else old)
  unfolding serialize_to
  last_put-block_hash hash b m old = rw (
    last_put-set_entries (serialize (block_hash_to_height hash)) b m old,
    last_put-max_height_entry_other 2 hash b m,
    last_put-txn_entries_other 2 hash (ops.txns b),
    last_put-non_empty_entry_other 2 hash b (ops.txns b),
  )

  pub last_put-txn_hash :
      (hash : Bytes) (b : B) (m : Option BlockHeight) (old : Option Bytes)
      → last_put (serialize (txn_by_hash hash)) (puts ops (set_entries ops b m)) old
        ≡ last_put (serialize (txn_by_hash hash)) (puts ops (txn_entries ops (ops.txns b))) old
  unfolding serialize_to
  last_put-txn_hash hash b m old = rw (
    last_put-set_entries (serialize (txn_by_hash hash)) b m old,
    last_put-max_height_entry_other 4 hash b m,
    last_put-non_empty_entry_other 4 hash b (ops.txns b),
  )

  -- The bytes of the transactions are decoded one by one.
  pub decode-last_put-txn_entries :
      (hash : Bytes) (ts : List Txn) (old : Option Bytes) (t : Option Txn)
      → decode ops.txn_from_bytes old ≡ ok t
      → decode ops.txn_from_bytes
          (last_put (serialize (txn_by_hash hash)) (puts ops (txn_entries ops ts)) old)
        ≡ ok (last_txn hash ts t)
  unfolding serialize_to
  decode-last_put-txn_entries hash [] old t h = h
  decode-last_put-txn_entries hash (u ∷ ts) old t h =
      decode-last_put-txn_entries hash ts
        (if bytes_beq (ops.txn_hash u) hash then some (ops.txn_to_bytes u) else old)
        (if bytes_beq (ops.txn_hash u) hash then some u else t)
        (ground (arith, h, ops.txn_from_bytes-txn_to_bytes u))
