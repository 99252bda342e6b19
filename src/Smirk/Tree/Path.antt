-- ===== src/Smirk/Tree/Path.antt =====
-- pkg/smirk/src/tree/path.rs: Merkle paths.
use tempo_zk_rollup.Base.{
  ℕ, zero, suc, ◌-◌, Bool, true, false, List, [], ◌∷◌, ◌++◌, Option, none, some, length, take, drop,
  replicate, reverse, zip, set?, get_elem?, ◌==◌,
}
use tempo_zk_rollup.Smirk.Bits.{Element, Bits, null_hash, lsb}
use tempo_zk_rollup.Smirk.Hash.{empty_tree_hash, compute_merkle_root}
use tempo_zk_rollup.Smirk.Node.{Node, leaf, empty, parent, hash}
use tempo_zk_rollup.Smirk.HashWith.{◌>>=◌}
use tempo_zk_rollup.Smirk.Tree.{Tree, root_hash}

-- `Path`; the array `siblings` has `DEPTH` places, of which the last holds the element.
pub record MerklePath : Type 0 where
  pub siblings : List Element
  pub root_hash : Element

-- `siblings_deepest_first`, `element` and `lsb`; `none` is the panic of an empty array.
abbrev pub siblings_deepest_first : ℕ → MerklePath → List Element
siblings_deepest_first depth p = take (depth - 1) p.siblings

abbrev pub element : MerklePath → Option Element
element p = get_elem? p.siblings (length p.siblings - 1)

module _ (merge : Element → Element → Element) where
  -- `compute_root_hash`.
  unfoldable pub compute_root_hash : ℕ → MerklePath → Element → Option Element
  compute_root_hash depth p e = do
    own ← element p
    let bits = reverse (lsb own (depth - 1))
    some (compute_merkle_root merge e (zip (siblings_deepest_first depth p) bits))

  -- `proves`.
  unfoldable pub proves : ℕ → MerklePath → Element → Option Bool
  proves depth p e = do computed ← compute_root_hash depth p e; some (computed == p.root_hash)

  -- `for (i, depth) in (1..*depth).rev().enumerate()`: the hashes of ever smaller empty trees.
  unfoldable pub fill_empty : ℕ → ℕ → List Element → Option (List Element)
  fill_empty zero index siblings = some siblings
  fill_empty (suc zero) index siblings = some siblings
  fill_empty (suc (suc d)) index siblings = do
    siblings' ← set? siblings index (empty_tree_hash merge (suc d))
    fill_empty (suc d) (suc index) siblings'

  -- The loop of `path_for` over the bits; `none` is a panic.
  unfoldable pub walk : Node → Bits → ℕ → List Element → Option (List Element)
  walk (leaf e) [] index siblings = some siblings
  walk (leaf e) (b ∷ bits) index siblings = none
  walk (empty d) [] index siblings = some siblings
  walk (empty d) (b ∷ bits) index siblings = fill_empty d index siblings
  walk (parent left right h dirty) [] index siblings = some siblings
  walk (parent left right h dirty) (false ∷ bits) index siblings = do
    siblings' ← set? siblings index (hash merge right)
    walk left bits (suc index) siblings'
  walk (parent left right h dirty) (true ∷ bits) index siblings = do
    siblings' ← set? siblings index (hash merge left)
    walk right bits (suc index) siblings'

  -- `Tree::path_for`.
  unfoldable pub path_for : {V : Type 0} → ℕ → Tree V → Element → Option MerklePath
  path_for depth t e = do
    walked ← walk t.node (lsb e (depth - 1)) 0 (replicate depth null_hash)
    siblings ← set? walked (length walked - 1) e
    some (record {
      siblings = reverse (take (depth - 1) siblings) ++ drop (depth - 1) siblings;
      root_hash = root_hash merge t;
    })
