-- ===== src/BlockStore/Keys.antt =====
-- The keys of the database: pkg/block-store/src/keys.rs.
use tempo_zk_rollup.Base.{
  ℕ, zero, suc, ◌^◌, ◌<◌, ◌≡◌, refl, ap, List, [], ◌∷◌, ◌++◌, length, take, arith, leb,
  if◌then◌else◌,
}
use tempo_zk_rollup.Doomslug.Approval.{BlockHeight}
use tempo_zk_rollup.BlockStore.Bytes.{
  Bytes, to_be_bytes, from_be_bytes, length-to_be_bytes, from_be_bytes-to_be_bytes, u64-HasBytes,
}

-- The hashes are arrays of 32 bytes.
pub data Key : Type 0 where
  block : BlockHeight → Key
  max_height : Key
  block_hash_to_height : Bytes → Key
  pending_block : Key
  txn_by_hash : Bytes → Key
  store_version : Key
  non_empty_block : BlockHeight → Key

-- `Result` with the variants of `Error` that the code itself makes, and the panics. A failure of
-- the database is not modelled.
pub data StoreResult (A : Type 0) : Type 0 where
  ok : A → StoreResult A
  invalid_key : StoreResult A
  invalid_version : ℕ → StoreResult A
  wire_message : StoreResult A
  panics : StoreResult A

-- `Key::kind`.
abbrev pub kind : Key → ℕ
kind (block h) = 0
kind max_height = 1
kind (block_hash_to_height hash) = 2
kind pending_block = 3
kind (txn_by_hash hash) = 4
kind store_version = 5
kind (non_empty_block h) = 6

-- What `Key::serialize` writes after the kind.
unfoldable pub serialize_to : Key → Bytes
serialize_to (block h) = to_be_bytes 8 h
serialize_to max_height = []
serialize_to (block_hash_to_height hash) = hash
serialize_to pending_block = []
serialize_to (txn_by_hash hash) = hash
serialize_to store_version = []
serialize_to (non_empty_block h) = to_be_bytes 8 h

-- `Key::serialize`.
abbrev pub serialize : Key → Bytes
serialize k = kind k ∷ serialize_to k

-- `Key::serialize_immediate_successor`.
abbrev pub serialize_immediate_successor : Key → Bytes
serialize_immediate_successor k = serialize k ++ 0 ∷ []

-- `KeyBlock::deserialize` and `KeyNonEmptyBlock::deserialize`: the slice of 8 bytes panics where
-- there are fewer, and what follows it is not read.
abbrev pub deserialize_height : (BlockHeight → Key) → Bytes → StoreResult Key
deserialize_height make bytes =
    if leb 8 (length bytes) then ok (make (from_be_bytes (take 8 bytes))) else panics

-- The hash of the arms 2 and 4.
abbrev pub deserialize_hash : (Bytes → Key) → Bytes → StoreResult Key
deserialize_hash make bytes = if leb 32 (length bytes) then ok (make (take 32 bytes)) else panics

-- `Key::deserialize`.
unfoldable pub deserialize : Bytes → StoreResult Key
deserialize [] = invalid_key
deserialize (zero ∷ bytes) = deserialize_height block bytes
deserialize (suc zero ∷ bytes) = ok max_height
deserialize (suc (suc zero) ∷ bytes) = deserialize_hash block_hash_to_height bytes
deserialize (suc (suc (suc zero)) ∷ bytes) = ok pending_block
deserialize (suc (suc (suc (suc zero))) ∷ bytes) = deserialize_hash txn_by_hash bytes
deserialize (suc (suc (suc (suc (suc zero)))) ∷ bytes) = ok store_version
deserialize (suc (suc (suc (suc (suc (suc zero))))) ∷ bytes) =
    deserialize_height non_empty_block bytes
deserialize (suc (suc (suc (suc (suc (suc (suc n)))))) ∷ bytes) = invalid_key

-- The heights of a key are `u64` and its hashes have 32 bytes.
abbrev pub IsKey : Key → Type 0
IsKey (block h) = h < 2 ^ 64
IsKey (block_hash_to_height hash) = length hash ≡ 32
IsKey (txn_by_hash hash) = length hash ≡ 32
IsKey (non_empty_block h) = h < 2 ^ 64
IsKey max_height = Unit
IsKey pending_block = Unit
IsKey store_version = Unit

take-length : {A : Type 0} (n : ℕ) (xs : List A) → length xs ≡ n → take n xs ≡ xs
take-length zero [] h = refl
take-length zero (x ∷ xs) h = absurd (omega arith)
take-length (suc n) [] h = absurd (omega arith)
take-length (suc n) (x ∷ xs) h = ap (λ t. x ∷ t) (take-length n xs (omega arith))

height_round_trip :
    (make : BlockHeight → Key) (h : BlockHeight)
    → h < 2 ^ 64
    → deserialize_height make (to_be_bytes 8 h) ≡ ok (make h)
height_round_trip make h l = rw (
  length-to_be_bytes 8 h,
  take-length 8 (to_be_bytes 8 h) (length-to_be_bytes 8 h),
  from_be_bytes-to_be_bytes 8 h (u64-HasBytes h l),
)

hash_round_trip :
    (make : Bytes → Key) (hash : Bytes)
    → length hash ≡ 32
    → deserialize_hash make hash ≡ ok (make hash)
hash_round_trip make hash l = rw (l, take-length 32 hash l)

-- `deserialize` reads back every key that `serialize` writes, where the heights are `u64` and
-- the hashes have 32 bytes.
pub deserialize-serialize : (k : Key) → IsKey k → deserialize (serialize k) ≡ ok k
unfolding deserialize serialize_to
deserialize-serialize (block h) l = height_round_trip block h l
deserialize-serialize max_height l = refl
deserialize-serialize (block_hash_to_height hash) l = hash_round_trip block_hash_to_height hash l
deserialize-serialize pending_block l = refl
deserialize-serialize (txn_by_hash hash) l = hash_round_trip txn_by_hash hash l
deserialize-serialize store_version l = refl
deserialize-serialize (non_empty_block h) l = height_round_trip non_empty_block h l
