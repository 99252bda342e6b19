-- ===== src/Examples/Smirk.antt =====
-- Runs of pkg/smirk at concrete inputs: a tree of depth 3, and a pairing function for the hash.
use tempo_zk_rollup.Base.{
  ℕ, suc, ◌+◌, ◌*◌, ◌≡◌, ◌≢◌, ◌<◌, ◌≤◌, refl, ap, ◌⊎◌, inl, inr, true, List, [], ◌∷◌, some, All,
  arith, ◌==◌,
}
use tempo_zk_rollup.Smirk.Bits.{Element, null_hash, lsb}
use tempo_zk_rollup.Smirk.Batch.{
  Batch, elements, from_entries, ok, from_entries-IsValid, insert_all, find_element_with_lsb,
}
use tempo_zk_rollup.Smirk.Batch
use tempo_zk_rollup.Smirk.Tree.{
  Tree, insert_batch, root_hash, root_hash_with, contains_element, check_collisions, check_keys,
  raw_insert, record_entries, rehash,
}
use tempo_zk_rollup.Smirk.Tree
use tempo_zk_rollup.Smirk.Sort.{sort_by_bits}
use tempo_zk_rollup.Smirk.Hash.{merkle_root}
use tempo_zk_rollup.Smirk.Contents.{element_at}
use tempo_zk_rollup.Smirk.Recalculate.{recalculate_hashes}
use tempo_zk_rollup.Smirk.Node.{
  insert_without_hashing, rights_start, insert_leaf, insert_first, hash, insert_sides,
  insert_parent, insert_empty, Collision,
}
use tempo_zk_rollup.Smirk.Tree.Path.{path_for, MerklePath, proves, compute_root_hash}
use tempo_zk_rollup.Smirk.Tree.Siblings.{replace}
use tempo_zk_rollup.Smirk.Tree.Proves.{
  true_path, path_for-proves, proves_iff, compute_root_hash-replace, path_for-true_path,
}
use tempo_zk_rollup.Smirk.Tree.InsertBatch.{IsApart, IsClash, check_collisions_lem}
use tempo_zk_rollup.Smirk.Tree.Valid.{IsValid, new-IsValid}
use tempo_zk_rollup.Smirk.Tree.Takes.{BatchOutcome, insert_batch_lem, insert_batch-IsValid}
use tempo_zk_rollup.Smirk.Tree.Root.{root_hash_with-insert_batch}

-- A hash without collisions.
abbrev pub pair : Element → Element → Element
pair a b = (a + b) * (a + b) + a

square_mono : (m n : ℕ) → m ≤ n → m * m ≤ n * n
square_mono m n l = grind arith

below : (a b s t : ℕ) → a ≤ s → s < t → s * s + a < t * t + b
below a b s t l k = omega (arith, square_mono (suc s) t k, square_suc s)
  where
    square_suc : (s : ℕ) → suc s * suc s ≡ s * s + s + s + 1
    square_suc s = grind arith

pair-injective : (a b c d : Element) → pair a b ≡ pair c d → (a ≡ c) × (b ≡ d)
pair-injective a b c d h = elim (three (a + b) (c + d)) [
  | inl e ↦ (omega (arith, h, ap (λ s. s * s) e), omega (arith, h, e, ap (λ s. s * s) e))
  | inr (inl l) ↦ absurd (omega (arith, h, below a c (a + b) (c + d) (omega arith) l))
  | inr (inr l) ↦ absurd (omega (arith, h, below c a (c + d) (a + b) (omega arith) l))
]
  where
    three : (m n : ℕ) → (m ≡ n) ⊎ ((m < n) ⊎ (n < m))
    three m n = omega arith

abbrev entries_1 : List (Element × ℕ)
entries_1 = (1, 10) ∷ (2, 20) ∷ []

abbrev batch_1 : Batch ℕ
batch_1 = record { entries = entries_1; lsbs = lsb 1 2 ∷ lsb 2 2 ∷ [] }

batch_1-IsValid : Batch.IsValid 3 batch_1
unfolding lsb
batch_1-IsValid = record { tracked = refl; distinct = ((refl, tt), (tt, tt)) }

abbrev pub tree_1 : Tree ℕ
tree_1 = (insert_batch pair 3 (Tree.new 3) batch_1).0.0

not_null : All (λ x. x.0 ≢ null_hash) entries_1
not_null = (omega arith, (omega arith, tt))

pub tree_1-IsValid : IsValid pair 3 tree_1
tree_1-IsValid =
    insert_batch-IsValid pair 3 (Tree.new 3) batch_1 (new-IsValid pair 3 (omega arith))
      batch_1-IsValid not_null

-- A batch that clashes with the first entry of the tree, and one that does not.
abbrev clashing : Batch ℕ
clashing = record { entries = (5, 50) ∷ []; lsbs = lsb 5 2 ∷ [] }

clashing-IsValid : Batch.IsValid 3 clashing
clashing-IsValid = record { tracked = refl; distinct = (tt, tt) }

abbrev batch_2 : Batch ℕ
batch_2 = record { entries = (4, 40) ∷ (7, 70) ∷ []; lsbs = lsb 4 2 ∷ lsb 7 2 ∷ [] }

batch_2-IsValid : Batch.IsValid 3 batch_2
unfolding lsb
batch_2-IsValid = record { tracked = refl; distinct = ((refl, tt), (tt, tt)) }

insert_batch_lem_example : BatchOutcome pair 3 tree_1 clashing (insert_batch pair 3 tree_1 clashing)
insert_batch_lem_example =
    insert_batch_lem pair 3 tree_1 clashing tree_1-IsValid clashing-IsValid (omega arith, tt)

takes_batch_2 : (insert_batch pair 3 tree_1 batch_2).1 ≡ Batch.ok tt
unfolding insert_batch check_collisions check_keys raw_insert record_entries rehash lsb
    find_element_with_lsb sort_by_bits insert_without_hashing recalculate_hashes rights_start
    insert_leaf insert_first hash Tree.new insert_empty insert_parent insert_sides
takes_batch_2 = refl

root_hash_with-insert_batch_example :
    root_hash_with pair 3 tree_1 (elements batch_2)
    ≡ some (root_hash pair (insert_batch pair 3 tree_1 batch_2).0.0)
root_hash_with-insert_batch_example =
    root_hash_with-insert_batch pair 3 tree_1 batch_2 tree_1-IsValid batch_2-IsValid
      (omega arith, (omega arith, tt)) takes_batch_2

holds_one : contains_element tree_1 1 ≡ true
unfolding insert_batch check_collisions check_keys raw_insert record_entries rehash lsb
    find_element_with_lsb sort_by_bits insert_without_hashing recalculate_hashes rights_start
    insert_leaf insert_first hash Tree.new insert_empty insert_parent insert_sides
holds_one = refl

path_for-proves_example :
    (p : MerklePath) × (path_for pair 3 tree_1 1 ≡ some p) × (proves pair 3 p 1 ≡ some true)
path_for-proves_example = path_for-proves pair 3 tree_1 1 (omega arith) tree_1-IsValid holds_one

path_for-true_path_example : path_for pair 3 tree_1 6 ≡ some (true_path pair 3 tree_1 6)
path_for-true_path_example = path_for-true_path pair 3 tree_1 6 (omega arith) tree_1-IsValid

-- The path of 6, which shares its leaf with 2, proves 2 alone.
proves_iff_example :
    proves pair 3 (true_path pair 3 tree_1 6) 2 ≡ some (2 == element_at tree_1.node (lsb 6 2))
proves_iff_example =
    proves_iff pair pair-injective 3 tree_1 6 2 (true_path pair 3 tree_1 6) (omega arith)
      tree_1-IsValid (path_for-true_path pair 3 tree_1 6 (omega arith) tree_1-IsValid)

compute_root_hash-replace_example :
    compute_root_hash pair 3 (true_path pair 3 tree_1 3) 7
    ≡ some (merkle_root pair 2 (replace (lsb 3 2) 7 (element_at tree_1.node)))
compute_root_hash-replace_example =
    compute_root_hash-replace pair 3 tree_1 3 7 (omega arith) tree_1-IsValid

check_collisions_lem_example :
    ((check_collisions 3 tree_1 clashing ≡ ok tt) × IsApart 3 tree_1.entries clashing)
    ⊎ ((c : Collision) × (cs : List Collision) × (check_collisions 3 tree_1 clashing
          ≡ Batch.collides (c ∷ cs))
        × All (IsClash 3 tree_1.entries clashing) (c ∷ cs))
check_collisions_lem_example = check_collisions_lem 3 tree_1 clashing clashing-IsValid

from_entries-ok : from_entries 3 entries_1 ≡ ok batch_1
unfolding from_entries insert_all Batch.insert lsb
from_entries-ok = refl

from_entries-IsValid_example : Batch.IsValid 3 batch_1 × (batch_1.entries ≡ entries_1)
from_entries-IsValid_example = from_entries-IsValid 3 batch_1 entries_1 from_entries-ok
