-- ===== src/Examples/Blocks.antt =====
-- Runs of the block store of pkg/block-store.
use tempo_zk_rollup.Base.{
  ℕ, map, ◌<◌, ◌≤◌, ◌⊎◌, ◌==◌, if◌then◌else◌, ◌≡◌, refl, List, ◌∷◌, [], Option, none, some,
  replicate, arith,
}
use tempo_zk_rollup.Base.HashMap
use tempo_zk_rollup.Base.HashMap.{nat_eq}
use tempo_zk_rollup.Primitives.Cursor.{CursorChoice, CursorChoiceBefore}
use tempo_zk_rollup.BlockStore.Bytes.{Bytes, to_be_bytes}
use tempo_zk_rollup.BlockStore.Keys.{
  invalid_version, serialize_to, non_empty_block, ok, serialize, deserialize, deserialize-serialize,
}
use tempo_zk_rollup.BlockStore.Store.{
  StoredBlock, set, get, set_entries, puts, get_store_version, get_max_height,
  get_block_height_by_hash, get_txn_by_hash,
}
use tempo_zk_rollup.BlockStore.View.{View, Shows, view_set, set-Shows}
use tempo_zk_rollup.BlockStore.Entries.{IsStore, write-IsStore, set-IsStore, set_entries-AreValues}
use tempo_zk_rollup.BlockStore.List.{key_block, lowest_to_highest, list_paginated}
use tempo_zk_rollup.BlockStore.List.Blocks.{blocks, in_order}
use tempo_zk_rollup.BlockStore.List.Pages.{list_paginated-page, page}
use tempo_zk_rollup.BlockStore.List.Stored.{get-blocks}
use tempo_zk_rollup.BlockStore.Migration.{Migrated, migrate, migrate_lem}
use tempo_zk_rollup.Examples.SortedStore.{Sorted, sorted_db, empty_db}

-- Three blocks, the last with a transaction.
data ExampleBlock : Type 0 where
  genesis : ExampleBlock
  second : ExampleBlock
  third : ExampleBlock

data ExampleTxn : Type 0 where
  payment : ExampleTxn

abbrev example_height : ExampleBlock → ℕ
example_height genesis = 0
example_height second = 1
example_height third = 2

abbrev example_txns : ExampleBlock → List ExampleTxn
example_txns genesis = []
example_txns second = []
example_txns third = payment ∷ []

abbrev example_from : Bytes → Option ExampleBlock
example_from [] = none
example_from (b ∷ bs) =
    if b == 0 then some genesis else (if b == 1 then some second else some third)

abbrev example_ops : StoredBlock ExampleBlock ExampleTxn
example_ops = record {
  block_height = example_height;
  block_hash = λ b. replicate 32 (example_height b);
  txns = example_txns;
  txn_hash = λ t. replicate 32 7;
  to_bytes = λ b. example_height b ∷ [];
  from_bytes = example_from;
  txn_to_bytes = λ t. [];
  txn_from_bytes = λ bs. some payment;
  height_u64 = elim [ genesis ↦ omega arith | second ↦ omega arith | third ↦ omega arith ];
  length-block_hash = λ b. refl;
  length-txn_hash = λ t. refl;
  from_bytes-to_bytes = elim [ genesis ↦ refl | second ↦ refl | third ↦ refl ];
  txn_from_bytes-txn_to_bytes = elim [ payment ↦ refl ];
}

abbrev stored : Sorted → ExampleBlock → Option ℕ → Sorted
stored d b m = sorted_db.write d (puts example_ops (set_entries example_ops b m))

abbrev three_blocks : Sorted
three_blocks = stored (stored (stored empty_db genesis none) second (some 0)) third (some 1)

empty_db-IsStore : IsStore example_ops sorted_db empty_db
empty_db-IsStore k v h = absurd (cc)

stored-IsStore :
    (d : Sorted) (b : ExampleBlock) (m : Option ℕ)
    → IsStore example_ops sorted_db d
    → IsStore example_ops sorted_db (stored d b m)
stored-IsStore d b m =
    write-IsStore example_ops sorted_db d (set_entries example_ops b m)
      (set_entries-AreValues example_ops b m)

three_blocks-IsStore : IsStore example_ops sorted_db three_blocks
three_blocks-IsStore =
    stored-IsStore (stored (stored empty_db genesis none) second (some 0)) third (some 1) (
      stored-IsStore (stored empty_db genesis none) second (some 0)
        (stored-IsStore empty_db genesis none empty_db-IsStore))

abbrev empty_view : View example_ops
empty_view = record {
  block_at = λ h. none;
  max_at = none;
  height_of = λ hash. none;
  txn_of = λ hash. none;
}

empty_view-Shows : Shows example_ops sorted_db empty_db empty_view
unfolding get_max_height get_block_height_by_hash get_txn_by_hash get
empty_view-Shows = record {
  block_at_lem = λ h l. refl;
  max_at_lem = refl;
  height_of_lem = λ hash l. refl;
  txn_of_lem = λ hash l. refl;
}

deserialize-serialize_example :
    deserialize (serialize (non_empty_block 300)) ≡ ok (non_empty_block 300)
deserialize-serialize_example = deserialize-serialize (non_empty_block 300) (omega arith)

set-Shows_example :
    (d : Sorted) × (set example_ops sorted_db empty_db third ≡ ok d)
    × Shows example_ops sorted_db d (view_set example_ops empty_view third)
set-Shows_example = set-Shows example_ops sorted_db empty_db empty_view third empty_view-Shows

set_third : set example_ops sorted_db empty_db third ≡ ok (stored empty_db third none)
unfolding set get_max_height
set_third = refl

version_zero : get_store_version sorted_db three_blocks ≡ ok 0
unfolding get_store_version serialize_to to_be_bytes
version_zero = refl

set-IsStore_example : IsStore example_ops sorted_db (stored empty_db third none)
set-IsStore_example =
    set-IsStore example_ops sorted_db empty_db (stored empty_db third none) third empty_db-IsStore
      set_third

-- The last block before height 2 of the three.
list_paginated-page_example :
    list_paginated example_ops sorted_db key_block three_blocks
      (some (CursorChoice.before (CursorChoiceBefore.before 2)))
      lowest_to_highest
      1
    ≡ ok (
        map ok (
          page
            (some (CursorChoice.before (CursorChoiceBefore.before 2)))
            lowest_to_highest
            1
            (in_order lowest_to_highest (blocks example_ops key_block sorted_db three_blocks))))
list_paginated-page_example =
    list_paginated-page example_ops key_block sorted_db three_blocks
      (some (CursorChoice.before (CursorChoiceBefore.before 2))) lowest_to_highest 1
      three_blocks-IsStore (omega arith)

get-blocks_example :
    get example_ops sorted_db three_blocks 1
    ≡ ok (HashMap.lookup 1 (blocks example_ops key_block sorted_db three_blocks))
get-blocks_example =
    get-blocks example_ops sorted_db three_blocks 1 three_blocks-IsStore (omega arith)

migrate_lem_example :
    ((0 ≤ 1)
      × ((d : Sorted) × (migrate example_ops sorted_db 2 three_blocks ≡ some (ok d))
          × (get_store_version sorted_db d ≡ ok 1)
          × Migrated example_ops sorted_db three_blocks d))
    ⊎ ((1 < 0) × (migrate example_ops sorted_db 2 three_blocks ≡ some (invalid_version 0)))
migrate_lem_example =
    migrate_lem example_ops sorted_db three_blocks 0 2 three_blocks-IsStore version_zero
      (omega arith)
