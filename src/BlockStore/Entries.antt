-- ===== src/BlockStore/Entries.antt =====
-- What the database of a block store holds: pkg/block-store/src/lib.rs.
use tempo_zk_rollup.Base.{
  ℕ, ◌^◌, ◌<◌, ◌≡◌, refl, sym, subst, some_injective, ◌∙◌, Bool, true, false, List, [], ◌∷◌, ◌++◌,
  Option, none, some, All, All-imp, ltb, if◌then◌else◌,
}
use tempo_zk_rollup.BlockStore.Bytes.{Bytes, to_be_bytes}
use tempo_zk_rollup.BlockStore.Db.{RocksDb, bytes_beq, bytes_beq_iff, last_put, get-All}
use tempo_zk_rollup.BlockStore.Keys.{
  Key, block, max_height, block_hash_to_height, pending_block, txn_by_hash, store_version,
  non_empty_block, ok, serialize, IsKey,
}
use tempo_zk_rollup.BlockStore.Store.{
  StoredBlock, ok-injective, bind_ok, get_max_height, txn_entries, non_empty_entry,
  max_height_entry, set_entries, puts, set,
}

module _ {B Txn : Type 0} (ops : StoredBlock B Txn) where
  -- What stands under a key.
  abbrev pub IsValue : Key → Bytes → Type 0
  IsValue (block h) v = (b : B) × (ops.block_height b ≡ h) × (v ≡ ops.to_bytes b)
  IsValue max_height v = (h : ℕ) × (h < 2 ^ 64) × (v ≡ to_be_bytes 8 h)
  IsValue (block_hash_to_height hash) v = (h : ℕ) × (h < 2 ^ 64) × (v ≡ to_be_bytes 8 h)
  IsValue pending_block v = (b : B) × v ≡ ops.to_bytes b
  IsValue (txn_by_hash hash) v = (t : Txn) × (ops.txn_hash t ≡ hash) × (v ≡ ops.txn_to_bytes t)
  IsValue store_version v = (n : ℕ) × (n < 2 ^ 32) × (v ≡ to_be_bytes 4 n)
  IsValue (non_empty_block h) v = (b : B) × (ops.block_height b ≡ h) × (v ≡ ops.to_bytes b)

  abbrev pub IsEntry : Bytes × Bytes → Type 0
  IsEntry e = (k : Key) × IsKey k × (e.0 ≡ serialize k) × IsValue k e.1

  -- Every entry of the database is one of the store.
  abbrev pub IsStore : {D : Type 0} → RocksDb D → D → Type 0
  IsStore db d = (k v : Bytes) → db.get d k ≡ some v → IsEntry (k, v)

  pub IsStore-All :
      {D : Type 0} (db : RocksDb D) (d : D) → IsStore db d → All IsEntry (db.entries d)
  IsStore-All db d s = All-imp (db.entries d) (λ e h. s e.0 e.1 h) (get-All db d)

  abbrev pub AreValues : List (Key × Bytes) → Type 0
  AreValues es = All (λ e. IsKey e.0 × IsValue e.0 e.1) es

  IsEntry-if :
      (k w v : Bytes) (c : Bool) (old : Option Bytes)
      → (c ≡ true → IsEntry (k, w))
      → ((x : Bytes) → old ≡ some x → IsEntry (k, x))
      → (if c then some w else old) ≡ some v
      → IsEntry (k, v)
  IsEntry-if k w v true old f o q = subst (λ x. IsEntry (k, x)) (some_injective q) (f refl)
  IsEntry-if k w v false old f o q = o v q

  -- Puts of values keep what stands under every key one.
  pub last_put-IsEntry :
      (k v : Bytes) (es : List (Key × Bytes)) (old : Option Bytes)
      → AreValues es
      → ((x : Bytes) → old ≡ some x → IsEntry (k, x))
      → last_put k (puts ops es) old ≡ some v
      → IsEntry (k, v)
  last_put-IsEntry k v [] old h o eq = o v eq
  last_put-IsEntry k v ((j, w) ∷ es) old h o eq =
      last_put-IsEntry k v es (if bytes_beq (serialize j) k then some w else old) h.1
        (λ x.
          IsEntry-if k w x (bytes_beq (serialize j) k) old
            (λ t. (j, h.0.0, sym ((bytes_beq_iff (serialize j) k).0 t), h.0.1)) o)
        eq

  AreValues-append :
      (xs ys : List (Key × Bytes)) → AreValues xs → AreValues ys → AreValues (xs ++ ys)
  AreValues-append [] ys h k = k
  AreValues-append (x ∷ xs) ys h k = (h.0, AreValues-append xs ys h.1 k)

  pub txn_entries-AreValues : (ts : List Txn) → AreValues (txn_entries ops ts)
  txn_entries-AreValues [] = tt
  txn_entries-AreValues (t ∷ ts) =
      ((ops.length-txn_hash t, (t, refl, refl)), txn_entries-AreValues ts)

  pub non_empty_entry-AreValues : (b : B) (ts : List Txn) → AreValues (non_empty_entry ops b ts)
  non_empty_entry-AreValues b [] = tt
  non_empty_entry-AreValues b (t ∷ ts) = ((ops.height_u64 b, (b, refl, refl)), tt)

  -- The entries that `migrate_to_v1` writes for a block.
  pub index_entries-AreValues :
      (b : B) → AreValues (txn_entries ops (ops.txns b) ++ non_empty_entry ops b (ops.txns b))
  index_entries-AreValues b =
      AreValues-append (txn_entries ops (ops.txns b)) (non_empty_entry ops b (ops.txns b))
        (txn_entries-AreValues (ops.txns b)) (non_empty_entry-AreValues b (ops.txns b))

  max_height_entry-AreValues : (b : B) (m : Option ℕ) → AreValues (max_height_entry ops b m)
  max_height_entry-AreValues b none = ((tt, (ops.block_height b, ops.height_u64 b, refl)), tt)
  max_height_entry-AreValues b (some m) =
      elim (ltb m (ops.block_height b))
        as (λ c.
          AreValues (if c then (max_height, to_be_bytes 8 (ops.block_height b)) ∷ [] else [])) [
            | true ↦ ((tt, (ops.block_height b, ops.height_u64 b, refl)), tt)
            | false ↦ tt
          ]

  pub set_entries-AreValues : (b : B) (m : Option ℕ) → AreValues (set_entries ops b m)
  set_entries-AreValues b m = (
    (ops.height_u64 b, (b, refl, refl)),
    AreValues-append (max_height_entry ops b m)
        ((block_hash_to_height (ops.block_hash b), to_be_bytes 8 (ops.block_height b))
          ∷ (txn_entries ops (ops.txns b) ++ non_empty_entry ops b (ops.txns b)))
        (max_height_entry-AreValues b m)
        (
          (ops.length-block_hash b, (ops.block_height b, ops.height_u64 b, refl)),
          index_entries-AreValues b,
        ),
  )

  module _ {D : Type 0} (db : RocksDb D) where
    pub write-IsStore :
        (d : D) (es : List (Key × Bytes))
        → AreValues es
        → IsStore db d
        → IsStore db (db.write d (puts ops es))
    write-IsStore d es h s k v eq =
        last_put-IsEntry k v es (db.get d k) h (s k) (sym (db.get-write d (puts ops es) k) ∙ eq)

    -- Where every entry of the database is one of the store, with a key that `serialize` writes
    -- and a value of the kind of the key, this is so after a `set` that succeeds too.
    pub set-IsStore : (d d' : D) (b : B) → IsStore db d → set ops db d b ≡ ok d' → IsStore db d'
    unfolding set
    set-IsStore d d' b s eq =
        let (m, r, q) =
          bind_ok (get_max_height db d) (λ m. ok (db.write d (puts ops (set_entries ops b m)))) d'
            eq in
        subst (IsStore db) (ok-injective q)
          (write-IsStore d (set_entries ops b m) (set_entries-AreValues b m) s)
