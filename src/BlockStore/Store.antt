-- ===== src/BlockStore/Store.antt =====
-- Blocks in the database: pkg/block-store/src/lib.rs.
use tempo_zk_rollup.Base.{
  ℕ, ◌^◌, ◌<◌, ◌≡◌, refl, List, [], ◌∷◌, ◌++◌, Option, none, some, length, map, ltb, ◌==◌,
  if◌then◌else◌,
}
use tempo_zk_rollup.Doomslug.Approval.{BlockHeight}
use tempo_zk_rollup.BlockStore.Bytes.{Bytes, to_be_bytes, from_be_bytes}
use tempo_zk_rollup.BlockStore.Keys.{
  Key, block, max_height, block_hash_to_height, pending_block, txn_by_hash, store_version,
  non_empty_block, StoreResult, ok, wire_message, panics, serialize,
}
use tempo_zk_rollup.BlockStore.Keys
use tempo_zk_rollup.BlockStore.Db.{RocksDb}

-- The traits `Block` and `Transaction`, with the `WireMessage` of both; a hash is an array of 32
-- bytes, a height a `u64`, and a message is read back from the bytes that it is written to.
pub record StoredBlock (B Txn : Type 0) : Type 0 where
  pub block_height : B → BlockHeight
  pub block_hash : B → Bytes
  pub txns : B → List Txn
  pub txn_hash : Txn → Bytes
  pub to_bytes : B → Bytes
  pub from_bytes : Bytes → Option B
  pub txn_to_bytes : Txn → Bytes
  pub txn_from_bytes : Bytes → Option Txn
  pub height_u64 : (b : B) → block_height b < 2 ^ 64
  pub length-block_hash : (b : B) → length (block_hash b) ≡ 32
  pub length-txn_hash : (t : Txn) → length (txn_hash t) ≡ 32
  pub from_bytes-to_bytes : (b : B) → from_bytes (to_bytes b) ≡ some b
  pub txn_from_bytes-txn_to_bytes : (t : Txn) → txn_from_bytes (txn_to_bytes t) ≡ some t

-- `map(from_bytes).transpose()?`.
abbrev pub decode : {A : Type 0} → (Bytes → Option A) → Option Bytes → StoreResult (Option A)
decode from none = ok none
decode from (some bytes) = elim (from bytes) [ none ↦ wire_message | some a ↦ ok (some a) ]

-- `u64::from_be_bytes(bytes.try_into().unwrap())`.
abbrev pub decode_height : Option Bytes → StoreResult (Option BlockHeight)
decode_height none = ok none
decode_height (some bytes) = if length bytes == 8 then ok (some (from_be_bytes bytes)) else panics

-- The `u32` of the version; a store without a version has version 0.
abbrev pub decode_version : Option Bytes → StoreResult ℕ
decode_version none = ok 0
decode_version (some bytes) = if length bytes == 4 then ok (from_be_bytes bytes) else panics

infixl 20 ◌>>=◌
abbrev pub ◌>>=◌ : {A C : Type 0} → StoreResult A → (A → StoreResult C) → StoreResult C
ok a >>= f = f a
Keys.invalid_key >>= f = Keys.invalid_key
Keys.invalid_version n >>= f = Keys.invalid_version n
wire_message >>= f = wire_message
panics >>= f = panics

pub ok-injective : {A : Type 0} {a b : A} → ok a ≡ ok b → a ≡ b
ok-injective p = cc

-- A chain that succeeds has a first step that does.
pub bind_ok :
    {A C : Type 0} (r : StoreResult A) (f : A → StoreResult C) (c : C)
    → (r >>= f) ≡ ok c
    → (a : A) × (r ≡ ok a) × (f a ≡ ok c)
bind_ok (ok a) f c q = (a, refl, q)
bind_ok Keys.invalid_key f c q = absurd (cc)
bind_ok (Keys.invalid_version n) f c q = absurd (cc)
bind_ok wire_message f c q = absurd (cc)
bind_ok panics f c q = absurd (cc)

module _ {D : Type 0} (db : RocksDb D) where
  -- `get_max_height` and `get_block_height_by_hash`.
  unfoldable pub get_max_height : D → StoreResult (Option BlockHeight)
  get_max_height d = decode_height (db.get d (serialize max_height))

  unfoldable pub get_block_height_by_hash : D → Bytes → StoreResult (Option BlockHeight)
  get_block_height_by_hash d hash = decode_height (db.get d (serialize (block_hash_to_height hash)))

  -- `store_version` and `set_store_version`.
  unfoldable pub get_store_version : D → StoreResult ℕ
  get_store_version d = decode_version (db.get d (serialize store_version))

  unfoldable pub set_store_version : D → ℕ → D
  set_store_version d version = db.write d ((serialize store_version, to_be_bytes 4 version) ∷ [])

module _ {B Txn : Type 0} (ops : StoredBlock B Txn) where
  -- `txn_entries`.
  abbrev pub txn_entries : List Txn → List (Key × Bytes)
  txn_entries [] = []
  txn_entries (t ∷ ts) = (txn_by_hash (ops.txn_hash t), ops.txn_to_bytes t) ∷ txn_entries ts

  -- The put of `KeyNonEmptyBlock::from_block`.
  abbrev pub non_empty_entry : B → List Txn → List (Key × Bytes)
  non_empty_entry b [] = []
  non_empty_entry b (t ∷ ts) = (non_empty_block (ops.block_height b), ops.to_bytes b) ∷ []

  -- The put of a new maximum.
  abbrev pub max_height_entry : B → Option BlockHeight → List (Key × Bytes)
  max_height_entry b none = (max_height, to_be_bytes 8 (ops.block_height b)) ∷ []
  max_height_entry b (some m) =
      if ltb m (ops.block_height b)
      then (max_height, to_be_bytes 8 (ops.block_height b)) ∷ []
      else []

  -- The batch of `set`.
  abbrev pub set_entries : B → Option BlockHeight → List (Key × Bytes)
  set_entries b m =
      (block (ops.block_height b), ops.to_bytes b)
      ∷ (max_height_entry b m
          ++ ((block_hash_to_height (ops.block_hash b), to_be_bytes 8 (ops.block_height b))
              ∷ (txn_entries (ops.txns b) ++ non_empty_entry b (ops.txns b))))

  -- `batch.put(key.serialize(), value)`.
  abbrev pub puts : List (Key × Bytes) → List (Bytes × Bytes)
  puts es = map (λ e. (serialize e.0, e.1)) es

  module _ {D : Type 0} (db : RocksDb D) where
    -- `BlockStore::set`.
    unfoldable pub set : D → B → StoreResult D
    unfolding get_max_height
    set d b = do m ← get_max_height db d; ok (db.write d (puts (set_entries b m)))

    -- `BlockStore::get`.
    unfoldable pub get : D → BlockHeight → StoreResult (Option B)
    get d h = decode ops.from_bytes (db.get d (serialize (block h)))

    -- `get_pending_block`.
    unfoldable pub get_pending_block : D → StoreResult (Option B)
    get_pending_block d = decode ops.from_bytes (db.get d (serialize pending_block))

    -- `get_txn_by_hash`.
    unfoldable pub get_txn_by_hash : D → Bytes → StoreResult (Option Txn)
    get_txn_by_hash d hash = decode ops.txn_from_bytes (db.get d (serialize (txn_by_hash hash)))
