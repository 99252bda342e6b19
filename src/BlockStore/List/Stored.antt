-- ===== src/BlockStore/List/Stored.antt =====
-- The lists of blocks and `get`: pkg/block-store/src/list.rs and lib.rs.
use tempo_zk_rollup.Base.{
  ◌^◌, ◌<◌, ◌≡◌, refl, sym, subst, ap, ap₂, ◌∙◌, inl, inr, true, false, List, ◌∷◌, [], some, All,
  filter_map, filter_map-some, filter_map-none, ltb→lt, Bool-cases, arith,
}
use tempo_zk_rollup.Base.HashMap
use tempo_zk_rollup.Base.HashMap.{nat_eq}
use tempo_zk_rollup.Doomslug.Approval.{BlockHeight}
use tempo_zk_rollup.Primitives.Cursor.{unbounded}
use tempo_zk_rollup.BlockStore.Bytes.{Bytes, bytes_lt}
use tempo_zk_rollup.BlockStore.Db.{RocksDb, Ascending, bytes_beq, bytes_beq_iff, bytes_eq}
use tempo_zk_rollup.BlockStore.Keys.{block, ok, serialize}
use tempo_zk_rollup.BlockStore.Store.{StoredBlock, ◌>>=◌, decode, get}
use tempo_zk_rollup.BlockStore.Entries.{IsEntry, IsStore, IsStore-All}
use tempo_zk_rollup.BlockStore.List.{Listable, key_block, to_key, item, own_key}
use tempo_zk_rollup.BlockStore.List.Range.{in_bounds, in_bounds-to_key, bytes_lt-to_key}
use tempo_zk_rollup.BlockStore.List.Listed.{
  ok_value, entry_block, listed, other, IsEntry-Listing, own_key-to_key,
}
use tempo_zk_rollup.BlockStore.List.Blocks.{blocks}
use tempo_zk_rollup.BlockStore.Set.{block_beq}

module _ {B Txn : Type 0} (ops : StoredBlock B Txn) where
  -- Strictly ascending heights.
  abbrev pub AscendingHeights : List (BlockHeight × B) → Type 0
  AscendingHeights [] = Unit
  AscendingHeights (p ∷ ps) = All (λ q. p.0 < q.0) ps × AscendingHeights ps

  entry_block-listed :
      (l : Listable) (e : Bytes × Bytes) (p : BlockHeight × B)
      → item ops e ≡ ok (to_key l p.0, p.1)
      → entry_block ops l e ≡ some p
  entry_block-listed l e p i =
      ap (λ r. ok_value (r >>= own_key ops l)) i ∙ ap ok_value (own_key-to_key ops l p)

  module _ (h : BlockHeight) (u : h < 2 ^ 64) where
    get-other :
        (e : Bytes × Bytes)
        → in_bounds key_block unbounded unbounded e.0 ≡ false
        → bytes_beq e.0 (serialize (block h)) ≡ false
    get-other e f = elim (Bool-cases (bytes_beq e.0 (serialize (block h)))) [
      | inl t ↦
          let passes =
            ap (in_bounds key_block unbounded unbounded)
              ((bytes_beq_iff e.0 (serialize (block h))).0 t)
            ∙ in_bounds-to_key key_block unbounded unbounded h tt tt u in
          absurd (cc)
      | inr q ↦ q
    ]

    get_step :
        (e : Bytes × Bytes) (es : List (Bytes × Bytes))
        → IsEntry ops e
        → decode ops.from_bytes (HashMap.lookup (serialize (block h)) es)
          ≡ ok (HashMap.lookup h (filter_map (entry_block ops key_block) es))
        → decode ops.from_bytes (HashMap.lookup (serialize (block h)) (e ∷ es))
          ≡ ok (HashMap.lookup h (filter_map (entry_block ops key_block) (e ∷ es)))
    get_step e es v rest = elim (IsEntry-Listing ops unbounded unbounded key_block e v) [
      | listed p w k x q i ↦ ground (
        arith,
        rest,
        entry_block-listed key_block e p i,
        ap (λ t. bytes_beq t (serialize (block h))) k ∙ block_beq p.0 h w u,
        ap ops.from_bytes x ∙ ops.from_bytes-to_bytes p.1,
      )
      | other n q ↦ ground (arith, rest, n, get-other e q)
    ]

    get_entries :
        (es : List (Bytes × Bytes))
        → All (IsEntry ops) es
        → decode ops.from_bytes (HashMap.lookup (serialize (block h)) es)
          ≡ ok (HashMap.lookup h (filter_map (entry_block ops key_block) es))
    get_entries [] a = refl
    get_entries (e ∷ es) a = get_step e es a.0 (get_entries es a.1)

  module _ {D : Type 0} (db : RocksDb D) where
    -- Where every entry of the database is one of the store, `get` of a `u64` height answers
    -- with what the list of all stored blocks has for that height, and without an error.
    pub get-blocks :
        (d : D) (h : BlockHeight)
        → IsStore ops db d
        → h < 2 ^ 64
        → get ops db d h ≡ ok (HashMap.lookup h (blocks ops key_block db d))
    unfolding get
    get-blocks d h s u =
        ap (decode ops.from_bytes) (db.get-entries d (serialize (block h)))
        ∙ get_entries h u (db.entries d) (IsStore-All ops db d s)

  module _ (l : Listable) where
    -- The entries behind a key have greater heights.
    greater :
        (h : BlockHeight) (k : Bytes) (es : List (Bytes × Bytes))
        → h < 2 ^ 64
        → k ≡ serialize (to_key l h)
        → All (IsEntry ops) es
        → All (λ f. bytes_lt k f.0 ≡ true) es
        → All (λ q. h < q.0) (filter_map (entry_block ops l) es)
    greater h k [] u q a g = tt
    greater h k (e ∷ es) u q a g =
        let rest = greater h k es u q a.1 g.1 in
        elim (IsEntry-Listing ops unbounded unbounded l e a.0) [
          | listed p w j x r i ↦
              subst (All (λ q. h < q.0))
                (sym (filter_map-some (entry_block ops l) e p es (entry_block-listed l e p i)))
                (
                  ltb→lt h p.0
                      (sym (bytes_lt-to_key l h p.0 u w) ∙ ap₂ bytes_lt (sym q) (sym j) ∙ g.0),
                  rest,
                )
          | other n c ↦
              subst (All (λ q. h < q.0)) (sym (filter_map-none (entry_block ops l) e es n)) rest
        ]

    entries-AscendingHeights :
        (es : List (Bytes × Bytes))
        → All (IsEntry ops) es
        → Ascending es
        → AscendingHeights (filter_map (entry_block ops l) es)
    entries-AscendingHeights [] a g = tt
    entries-AscendingHeights (e ∷ es) a g =
        let rest = entries-AscendingHeights es a.1 g.1 in
        elim (IsEntry-Listing ops unbounded unbounded l e a.0) [
          | listed p w j x r i ↦
              subst AscendingHeights
                (sym (filter_map-some (entry_block ops l) e p es (entry_block-listed l e p i)))
                (greater p.0 e.0 es w j a.1 g.0, rest)
          | other n c ↦
              subst AscendingHeights (sym (filter_map-none (entry_block ops l) e es n)) rest
        ]

    -- The blocks of the store are in the order of their heights, one for each height at most.
    pub blocks-AscendingHeights :
        {D : Type 0} (db : RocksDb D) (d : D)
        → IsStore ops db d
        → AscendingHeights (blocks ops l db d)
    blocks-AscendingHeights db d s =
        entries-AscendingHeights (db.entries d) (IsStore-All ops db d s) (db.ascending d)
