-- ===== src/Node/Sync/Elements.antt =====
-- The sets of elements of a fast chunk: pkg/node/src/sync.rs.
use tempo_zk_rollup.Base.{
  ◌≡◌, refl, subst, ap, ◌∙◌, ◌↔◌, inl, inr, Bool, true, false, not, ◌&&◌, List, [], ◌∷◌, map, any,
  filter, All, ◌==◌, Bool-cases, ==→eq, arith,
}
use tempo_zk_rollup.Smirk.Bits.{Element}
use tempo_zk_rollup.Smirk.Tree.{Tree, contains_element}
use tempo_zk_rollup.Doomslug.Approval.{BlockHeight}
use tempo_zk_rollup.Node.Validate.{Block, block_leaves, non_null}
use tempo_zk_rollup.Node.ValidBlock.{IsUnique}
use tempo_zk_rollup.Node.Sync.Chunks.{distinct, new_elements, fast_entries, has_leaves}

any-filter :
    (keep : Element → Bool) (e : Element) (xs : List Element)
    → any (λ x. x == e) (filter keep xs) ≡ (keep e && any (λ x. x == e) xs)
any-filter keep e [] = ground arith
any-filter keep e (x ∷ xs) = elim (Bool-cases (x == e)) [
  | inl q ↦
      subst (λ i. any (λ z. z == i) (filter keep (x ∷ xs)) ≡ (keep i && any (λ z. z == i) (x ∷ xs)))
        (==→eq x e q) (ground (arith, any-filter keep x xs))
  | inr q ↦ ground (arith, any-filter keep e xs)
]

any-distinct :
    (e : Element) (xs : List Element) → any (λ x. x == e) (distinct xs) ≡ any (λ x. x == e) xs
any-distinct e [] = refl
any-distinct e (x ∷ xs) =
    ground (arith, any-filter (λ y. not (y == x)) e (distinct xs), any-distinct e xs)

IsUnique-filter :
    (keep : Element → Bool) (xs : List Element) → IsUnique xs → IsUnique (filter keep xs)
IsUnique-filter keep [] u = tt
IsUnique-filter keep (x ∷ xs) u = ground (arith, IsUnique-filter keep xs u.1, any-filter keep x xs)

distinct-IsUnique : (xs : List Element) → IsUnique (distinct xs)
distinct-IsUnique [] = tt
distinct-IsUnique (x ∷ xs) = (
  any-filter (λ y. not (y == x)) x (distinct xs) ∙ ground arith,
  IsUnique-filter (λ y. not (y == x)) (distinct xs) (distinct-IsUnique xs),
)

-- The elements of a chunk that a tree does not have, each once.
pub record IsNew (tree : Tree BlockHeight) (elements new : List Element) : Type 0 where
  pub members :
      (e : Element)
      → any (λ x. x == e) new ≡ (not (contains_element tree e) && any (λ x. x == e) elements)
  pub once : IsUnique new

pub new_elements-IsNew :
    (tree : Tree BlockHeight) (elements : List Element)
    → IsNew tree elements (new_elements tree elements)
new_elements-IsNew tree elements = record {
  members = λ e.
      any-filter (λ e. not (contains_element tree e)) e (distinct elements)
      ∙ ap (λ b. not (contains_element tree e) && b) (any-distinct e elements);
  once = IsUnique-filter _ (distinct elements) (distinct-IsUnique elements);
}

-- Every leaf of the block that is not null is in the chunk, and not yet in the tree.
abbrev pub Covers : Tree BlockHeight → List Element → Block → Type 0
Covers tree elements block =
    All (λ l. (any (λ x. x == l) elements ≡ true) × (contains_element tree l ≡ false))
      (non_null (block_leaves block.content.state.txns))

covers_iff :
    (tree : Tree BlockHeight) (elements new ls : List Element)
    → IsNew tree elements new
    → (not (any (λ e. not (any (λ y. y == e) new)) ls) ≡ true)
      ↔ All (λ l. (any (λ x. x == l) elements ≡ true) × (contains_element tree l ≡ false)) ls
covers_iff tree elements new [] n = ground arith
covers_iff tree elements new (l ∷ ls) n =
    ground (arith, n.members l, covers_iff tree elements new ls n)

pub has_leaves_iff :
    (tree : Tree BlockHeight) (elements new : List Element) (block : Block)
    → IsNew tree elements new
    → (has_leaves block new ≡ true) ↔ Covers tree elements block
has_leaves_iff tree elements new block n =
    covers_iff tree elements new (non_null (block_leaves block.content.state.txns)) n

any-entries :
    (e : Element) (h : BlockHeight) (xs : List Element)
    → any (λ (x : Element × BlockHeight). x.0 == e) (map (λ k. (k, h)) xs) ≡ any (λ x. x == e) xs
any-entries e h [] = refl
any-entries e h (x ∷ xs) = rw (any-entries e h xs)

pub any-fast_entries :
    (block : Block) (new : List Element) (e : Element)
    → any (λ x. x.0 == e) (fast_entries block new) ≡ (
        not (any (λ x. x == e) (non_null (block_leaves block.content.state.txns)))
        && any (λ x. x == e) new)
any-fast_entries block new e =
    any-entries e 0 _
    ∙ any-filter (λ k. not (any (λ x. x == k) (non_null (block_leaves block.content.state.txns)))) e
        new
