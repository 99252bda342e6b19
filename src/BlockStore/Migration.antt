-- ===== src/BlockStore/Migration.antt =====
-- The migration of a block store: pkg/block-store/src/migration.rs.
use tempo_zk_rollup.Base.{
  ℕ, zero, suc, ◌<◌, ◌≤◌, ◌≡◌, refl, ap, ◌∙◌, ◌⊎◌, inl, inr, List, ◌∷◌, ◌++◌, [], Option, none,
  some, map, arith,
}
use tempo_zk_rollup.Doomslug.Approval.{BlockHeight}
use tempo_zk_rollup.Primitives.Cursor.{unbounded}
use tempo_zk_rollup.BlockStore.Bytes.{from_be, to_be_bytes}
use tempo_zk_rollup.BlockStore.Db.{RocksDb}
use tempo_zk_rollup.BlockStore.Keys.{
  block, store_version, StoreResult, ok, invalid_version, panics, serialize, serialize_to,
}
use tempo_zk_rollup.BlockStore.Keys
use tempo_zk_rollup.BlockStore.Store.{
  StoredBlock, ◌>>=◌, decode_version, get_store_version, set_store_version, txn_entries,
  non_empty_entry, puts, get,
}
use tempo_zk_rollup.BlockStore.Set.{
  last_put-append, puts-append, last_put-txn_entries_other, last_put-non_empty_entry_other,
}
use tempo_zk_rollup.BlockStore.Entries.{IsStore, write-IsStore, index_entries-AreValues}
use tempo_zk_rollup.BlockStore.List.{key_block, lowest_to_highest, list}
use tempo_zk_rollup.BlockStore.List.Blocks.{list_lem, blocks_in}

-- How a round of the loop ends: with the next one, or with the loop.
pub data Round (D : Type 0) : Type 0 where
  again : D → Round D
  stop : D → Round D

abbrev pub after_round :
    {D : Type 0} → (D → Option (StoreResult D)) → StoreResult (Round D) → Option (StoreResult D)
after_round next (ok (again d)) = next d
after_round next (ok (stop d)) = some (ok d)
after_round next Keys.invalid_key = some Keys.invalid_key
after_round next (invalid_version n) = some (invalid_version n)
after_round next Keys.wire_message = some Keys.wire_message
after_round next panics = some panics

module _ {B Txn : Type 0} (ops : StoredBlock B Txn) {D : Type 0} (db : RocksDb D) where
  -- The loop of `migrate_to_v1` over the blocks: the iterator is on the database before the writes.
  unfoldable pub index_blocks : List (StoreResult (BlockHeight × B)) → D → StoreResult D
  index_blocks [] d = ok d
  index_blocks (r ∷ rs) d = do
    p ← r
    index_blocks rs (
        db.write d
          (puts ops (txn_entries ops (ops.txns p.1) ++ non_empty_entry ops p.1 (ops.txns p.1))))

  -- `migrate_to_v1`.
  unfoldable pub migrate_to_v1 : D → StoreResult D
  unfolding index_blocks list set_store_version
  migrate_to_v1 d = do
    d' ← index_blocks (list ops db key_block d unbounded unbounded lowest_to_highest) d
    ok (set_store_version db d' 1)

  -- The `match` of `migrate` on the version.
  abbrev pub match_version : ℕ → D → StoreResult D → StoreResult (Round D)
  match_version zero d migrated = do d' ← migrated; ok (again d')
  match_version (suc zero) d migrated = ok (stop d)
  match_version (suc (suc n)) d migrated = invalid_version (suc (suc n))

  -- A round of the loop of `migrate`.
  unfoldable pub migrate_round : D → StoreResult (Round D)
  unfolding migrate_to_v1 get_store_version
  migrate_round d = do version ← get_store_version db d; match_version version d (migrate_to_v1 d)

  -- `migrate`, on fuel: without fuel there is no result.
  unfoldable pub migrate : ℕ → D → Option (StoreResult D)
  unfolding migrate_round
  migrate zero d = none
  migrate (suc fuel) d = after_round (λ d'. migrate fuel d') (migrate_round d)

  -- The puts of the indexes of a block leave what stands under the heights.
  get-index_entries :
      (d : D) (b : B) (h : BlockHeight)
      → get ops db
          (db.write d
            (puts ops (txn_entries ops (ops.txns b) ++ non_empty_entry ops b (ops.txns b))))
          h
        ≡ get ops db d h
  unfolding get serialize_to
  get-index_entries d b h = rw (
    db.get-write,
    puts-append ops (txn_entries ops (ops.txns b)) (non_empty_entry ops b (ops.txns b)),
    last_put-append,
    last_put-txn_entries_other ops 0 (to_be_bytes 8 h) (ops.txns b),
    last_put-non_empty_entry_other ops 0 (to_be_bytes 8 h) b (ops.txns b),
  )

  -- The store after a step has its entries, and the blocks of the store before.
  abbrev pub Migrated : D → D → Type 0
  Migrated d d' = IsStore ops db d' × ((h : BlockHeight) → get ops db d' h ≡ get ops db d h)

  index_blocks-ok :
      (ps : List (BlockHeight × B)) (d : D)
      → IsStore ops db d
      → (d' : D) × (index_blocks (map ok ps) d ≡ ok d') × Migrated d d'
  unfolding index_blocks
  index_blocks-ok [] d s = (d, refl, (s, λ h. refl))
  index_blocks-ok (p ∷ ps) d s =
      let es = txn_entries ops (ops.txns p.1) ++ non_empty_entry ops p.1 (ops.txns p.1) in
      let (d', q, m) =
        index_blocks-ok ps (db.write d (puts ops es))
          (write-IsStore ops db d es (index_entries-AreValues ops p.1) s) in
      (d', q, (m.0, λ h. m.1 h ∙ get-index_entries d p.1 h))

  set_store_version-Migrated :
      (d : D)
      → IsStore ops db d
      → (get_store_version db (set_store_version db d 1) ≡ ok 1)
        × Migrated d (set_store_version db d 1)
  unfolding get_store_version set_store_version get serialize_to to_be_bytes from_be
  set_store_version-Migrated d s = (
    ap decode_version (
        db.get-write d ((serialize store_version, to_be_bytes 4 1) ∷ []) (serialize store_version)),
    (
      write-IsStore ops db d ((store_version, to_be_bytes 4 1) ∷ [])
          ((tt, (1, omega arith, refl)), tt) s,
      λ h. rw (db.get-write),
    ),
  )

  migrate_to_v1-ok :
      (d : D)
      → IsStore ops db d
      → (d' : D) × (migrate_to_v1 d ≡ ok d') × (get_store_version db d' ≡ ok 1) × Migrated d d'
  unfolding migrate_to_v1
  migrate_to_v1-ok d s =
      let (d1, q, m) = index_blocks-ok (blocks_in ops key_block db d unbounded unbounded) d s in
      let (v, m') = set_store_version-Migrated d1 m.0 in
      (
        set_store_version db d1 1,
        ap (λ r. r >>= (λ d2. ok (set_store_version db d2 1)))
            (ap (λ rs. index_blocks rs d)
                (list_lem ops key_block db d unbounded unbounded lowest_to_highest s tt tt)
              ∙ q),
        v,
        (m'.0, λ h. m'.1 h ∙ m.1 h),
      )

  -- Where every entry of the database is one of the store, and the version can be read,
  -- `migrate` returns after two rounds at most. For version 0 or 1 it succeeds, with a store of
  -- version 1 whose entries are again those of a store and that has the same block at every
  -- height; for any other version it is the error of that version.
  pub migrate_lem :
      (d : D) (version fuel : ℕ)
      → IsStore ops db d
      → get_store_version db d ≡ ok version
      → 2 ≤ fuel
      → ((version ≤ 1)
          × ((d' : D) × (migrate fuel d ≡ some (ok d'))
              × (get_store_version db d' ≡ ok 1)
              × Migrated d d'))
        ⊎ ((1 < version) × (migrate fuel d ≡ some (invalid_version version)))
  unfolding migrate migrate_round
  migrate_lem d zero zero s v h = absurd (omega arith)
  migrate_lem d zero (suc zero) s v h = absurd (omega arith)
  migrate_lem d zero (suc (suc fuel)) s v h =
      let (d', q, v', m) = migrate_to_v1-ok d s in inl (omega arith, (d', rw (v, q, v'), v', m))
  migrate_lem d (suc zero) zero s v h = absurd (omega arith)
  migrate_lem d (suc zero) (suc fuel) s v h = inl (omega arith, (d, rw (v), v, (s, λ k. refl)))
  migrate_lem d (suc (suc n)) zero s v h = absurd (omega arith)
  migrate_lem d (suc (suc n)) (suc fuel) s v h = inr (omega arith, rw (v))
