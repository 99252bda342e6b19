-- ===== src/Smirk/Tree.antt =====
-- pkg/smirk/src/tree: the tree with the map of its entries, and the insertion of a batch.
pub mod Valid
pub mod InsertBatch
pub mod Takes
pub mod Root
pub mod Path
pub mod Siblings
pub mod Walk
pub mod Proves
use tempo_zk_rollup.Base.{
  ℕ, suc, ◌-◌, ◌≡◌, Bool, true, false, List, [], ◌∷◌, ◌++◌, Option, none, some, map, any, find,
  if◌then◌else◌, ◌==◌,
}
use tempo_zk_rollup.Base.TreeMap
use tempo_zk_rollup.Smirk.Bits.{Element, Bits, null_hash, lsb, bits_eq}
use tempo_zk_rollup.Smirk.Node.{
  Node, empty, Collision, tree, Entry, Outcome, done, hash, insert_without_hashing,
}
use tempo_zk_rollup.Smirk.Node
use tempo_zk_rollup.Smirk.Sort.{sort_by_bits}
use tempo_zk_rollup.Smirk.Recalculate.{Event, recalculate_hashes}
use tempo_zk_rollup.Smirk.HashWith.{hash_with}
use tempo_zk_rollup.Smirk.Batch.{
  Batch, Checked, ok, collides, panics, ◌>>=◌, contains, placed, elements, find_element_with_lsb,
}

-- `Tree` with the `NoopHashCache`. The constant `DEPTH` is an argument of the operations.
pub record Tree (V : Type 0) : Type 0 where
  pub node : Node
  pub entries : List (Element × V)

-- `Result<(), Collision>` with the panics.
pub data Raw : Type 0 where
  inserted : Raw
  collision : Collision → Raw
  panics_raw : Raw

module _ {V : Type 0} where
  -- `Tree::new`.
  unfoldable pub new : ℕ → Tree V
  new depth = record { node = empty depth; entries = [] }

  -- `contains_element`, `get`.
  abbrev pub contains_element : Tree V → Element → Bool
  contains_element t e = TreeMap.contains_key e t.entries

  abbrev pub get : Tree V → Element → Option V
  get t e = TreeMap.lookup e t.entries

  -- `self.entries.insert(element, value)` for each entry.
  abbrev pub insert_entries : List (Element × V) → List (Element × V) → List (Element × V)
  insert_entries m [] = m
  insert_entries m ((e, v) ∷ es) = insert_entries (TreeMap.insert e v m) es

  -- The loop of `check_collisions` over the keys of the tree; `find` runs over the batch.
  unfoldable pub check_keys : ℕ → List (Element × V) → Batch V → Checked (List Collision)
  check_keys depth [] b = ok []
  check_keys depth ((k, v) ∷ m) b =
      let rest = check_keys depth m b in
      if contains b.lsbs (lsb k (depth - 1))
      then elim (find_element_with_lsb depth b (lsb k (depth - 1))) [
        | none ↦ panics
        | some e ↦
            (rest >>= λ cs.
            ok (record { in_tree = k; inserted = e; depth = depth; struct_name = tree } ∷ cs))
      ]
      else rest

  -- `check_collisions`.
  unfoldable pub check_collisions : ℕ → Tree V → Batch V → Checked (Unit {0})
  unfolding check_keys
  check_collisions depth t b = do
    cs ← check_keys depth t.entries b
    elim cs [ [] ↦ ok tt | c ∷ rest ↦ collides (c ∷ rest) ]

  module _ (merge : Element → Element → Element) where
    -- `root_hash`, and `root_hash_with`, in which `none` is a panic.
    abbrev pub root_hash : Tree V → Element
    root_hash t = hash merge t.node

    abbrev pub root_hash_with : ℕ → Tree V → List Element → Option Element
    root_hash_with depth t extra_elements = hash_with merge depth t.node extra_elements

    -- What follows the insertion into the nodes: `?` on a collision, the entries of the map on
    -- `Ok(true)`, and the `unreachable!` on `Ok(false)`.
    unfoldable pub record_entries : Tree V → List (Element × V) → Node × Outcome → Tree V × Raw
    record_entries t entries (n, done true) =
        (record { node = n; entries = insert_entries t.entries entries }, inserted)
    record_entries t entries (n, done false) = (record t { node = n }, panics_raw)
    record_entries t entries (n, Node.collision c) = (record t { node = n }, collision c)
    record_entries t entries (n, Node.panics) = (record t { node = n }, panics_raw)

    -- `Tree::insert_without_hashing`.
    unfoldable pub raw_insert : ℕ → Tree V → List (Element × V) → Tree V × Raw
    unfolding record_entries
    raw_insert depth t [] = (t, inserted)
    raw_insert depth t (x ∷ xs) =
        if any (λ e. e.0 == null_hash) (x ∷ xs)
        then (
          t,
          collision (record {
            in_tree = null_hash;
            inserted = null_hash;
            depth = depth;
            struct_name = tree;
          }),
        )
        else elim (find (λ e. contains_element t e.0) (x ∷ xs)) [
          | some e ↦ (
            t,
            collision (record { in_tree = e.0; inserted = e.0; depth = depth; struct_name = tree }),
          )
          | none ↦
              record_entries t (x ∷ xs)
                (insert_without_hashing merge depth t.node (sort_by_bits (placed depth (x ∷ xs))) 0)
        ]

    -- `unwrap`, and the hashes brought up to date.
    unfoldable pub rehash : Tree V × Raw → (Tree V × List Event) × Checked (Unit {0})
    rehash (t, inserted) =
        let (n, events) = recalculate_hashes merge t.node in
        ((record t { node = n }, events), ok tt)
    rehash (t, collision c) = ((t, []), panics)
    rehash (t, panics_raw) = ((t, []), panics)

    -- `insert_batch`: the tree, the calls of the callbacks, and the result.
    unfoldable pub insert_batch : ℕ → Tree V → Batch V → (Tree V × List Event) × Checked (Unit {0})
    unfolding rehash
    insert_batch depth t b = elim (check_collisions depth t b) [
      | collides cs ↦ ((t, []), collides cs)
      | panics ↦ ((t, []), panics)
      | ok u ↦ rehash (raw_insert depth t b.entries)
    ]
