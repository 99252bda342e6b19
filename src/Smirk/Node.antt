-- ===== src/Smirk/Node.antt =====
-- pkg/smirk/src/tree/tree_repr.rs: the nodes of a tree and the insertion of a batch into them.
use mathlib.Core.Option
use tempo_zk_rollup.Base.{
  ℕ, zero, suc, ◌-◌, Bool, true, false, ◌||◌, List, [], ◌∷◌, Option, none, some, get_elem?, take,
  drop, any, find, if◌then◌else◌, ◌==◌,
}
use tempo_zk_rollup.Smirk.Bits.{Element, Bits, lsb, bits_eq}
use tempo_zk_rollup.Smirk.Hash.{empty_tree_hash}

-- `Node`. In a parent: the children, the cached hash, and whether that is out of date.
pub data Node : Type 0 where
  leaf : Element → Node
  empty : ℕ → Node
  parent : Node → Node → Element → Bool → Node

pub data StructName : Type 0 where
  batch tree : StructName

pub record Collision : Type 0 where
  pub in_tree : Element
  pub inserted : Element
  pub depth : ℕ
  pub struct_name : StructName

-- The result `Result<bool, Collision>`, or a panic.
pub data Outcome : Type 0 where
  done : Bool → Outcome
  collision : Collision → Outcome
  panics : Outcome

-- One place of the parallel slices `elements` and `bits`.
abbrev pub Entry : Type 0
Entry = Element × Bits

abbrev pub is_inserted : Outcome → Bool
is_inserted (done b) = b
is_inserted _ = false

-- `right?; left?; Ok(*hash_dirty)`, over the code's variables of those names.
abbrev pub settle : Outcome → Outcome → Bool → Outcome
settle panics right dirty = panics
settle left panics dirty = panics
settle left (collision c) dirty = collision c
settle (collision c) right dirty = collision c
settle left right dirty = done dirty

-- `bits.iter().position(|b| b[path_depth]).unwrap_or(bits.len())`; `none` is the panic of an index
-- out of bounds.
unfoldable pub rights_start : ℕ → List Entry → Option ℕ
rights_start path_depth [] = some 0
rights_start path_depth ((e, b) ∷ es) =
    let rest = Option.map suc (rights_start path_depth es) in
    elim (get_elem? b path_depth) [ none ↦ none | some v ↦ if v then some 0 else rest ]

-- The arms of `match (lefts.is_empty(), rights.is_empty())`, with the calls on the two children.
unfoldable pub insert_sides :
    (List Entry → Node × Outcome)
    → (List Entry → Node × Outcome)
    → Node
    → Node
    → Element
    → Bool
    → List Entry
    → List Entry
    → Node × Outcome
insert_sides go_left go_right left right hash dirty [] [] =
    (parent left right hash dirty, done false)
insert_sides go_left go_right left right hash dirty (x ∷ xs) [] =
    let (left', l) = go_left (x ∷ xs) in
    let dirty' = false || is_inserted l in
    (parent left' right hash dirty', settle l (done false) dirty')
insert_sides go_left go_right left right hash dirty [] (y ∷ ys) =
    let (right', r) = go_right (y ∷ ys) in
    let dirty' = is_inserted r || false in
    (parent left right' hash dirty', settle (done false) r dirty')
insert_sides go_left go_right left right hash dirty (x ∷ xs) (y ∷ ys) =
    let (right', l) = go_right (y ∷ ys) in
    let (left', r) = go_left (x ∷ xs) in
    let dirty' = is_inserted r || is_inserted l in
    (parent left' right' hash dirty', settle l r dirty')

-- The arm for a parent: split the batch at the first path that goes right.
unfoldable pub insert_parent :
    (List Entry → Node × Outcome)
    → (List Entry → Node × Outcome)
    → Node
    → Node
    → Element
    → Bool
    → List Entry
    → ℕ
    → Node × Outcome
insert_parent go_left go_right left right hash dirty es path_depth =
    elim (rights_start path_depth es) [
      | none ↦ (parent left right hash dirty, panics)
      | some k ↦ insert_sides go_left go_right left right hash dirty (take k es) (drop k es)
    ]

-- The arm for a leaf; `n` is the depth of the whole tree.
unfoldable pub insert_leaf : ℕ → Element → List Entry → Node × Outcome
insert_leaf n e es =
    if any (λ x. x.0 == e) es
    then (leaf e, done false)
    else (if any (λ x. bits_eq x.1 (lsb e (n - 1))) es
        then (
          leaf e,
          elim (find (λ x. bits_eq (lsb x.0 (n - 1)) (lsb x.0 (n - 1))) es) [
            | none ↦ panics
            | some x ↦
                collision (record { in_tree = e; inserted = x.0; depth = n; struct_name = tree })
          ],
        )
        else (leaf e, panics))

-- `assert_eq!(elements.len(), 1)`, then the element becomes a leaf.
unfoldable pub insert_first : List Entry → Node × Outcome
insert_first [] = (empty 1, panics)
insert_first (x ∷ []) = (leaf x.0, done true)
insert_first (x ∷ y ∷ es) = (empty 1, panics)

module _ (merge : Element → Element → Element) where
  -- `Node::hash`.
  unfoldable pub hash : Node → Element
  hash (leaf h) = h
  hash (parent left right h dirty) = h
  hash (empty d) = empty_tree_hash merge d

  -- The arms for an empty tree: depth 1 takes the element, a deeper one is split in two, and the
  -- call is made again on the parent. Depth 0 fails in `empty_tree_hash`.
  unfoldable pub insert_empty : ℕ → List Entry → ℕ → Node × Outcome
  insert_empty zero es path_depth = (empty 0, panics)
  insert_empty (suc zero) es path_depth = insert_first es
  insert_empty (suc (suc d)) es path_depth =
      insert_parent (λ xs. insert_empty (suc d) xs (suc path_depth))
        (λ ys. insert_empty (suc d) ys (suc path_depth)) (empty (suc d)) (empty (suc d))
        (empty_tree_hash merge (suc (suc d))) false es path_depth

  -- `Node::insert_without_hashing`.
  unfoldable pub insert_without_hashing : ℕ → Node → List Entry → ℕ → Node × Outcome
  insert_without_hashing n (leaf e) es path_depth = insert_leaf n e es
  insert_without_hashing n (empty d) es path_depth = insert_empty d es path_depth
  insert_without_hashing n (parent left right h dirty) es path_depth =
      insert_parent (λ xs. insert_without_hashing n left xs (suc path_depth))
        (λ ys. insert_without_hashing n right ys (suc path_depth)) left right h dirty es path_depth
