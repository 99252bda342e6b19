-- ===== src/Node/Ledger.antt =====
-- The tree of notes from block to block: `validate` of pkg/node/src/block.rs followed by
-- `apply_block_to_tree` of pkg/node/src/node/block.rs.
use tempo_zk_rollup.Base.{
  ℕ, ◌≡◌, ◌≢◌, sym, ap, ◌∙◌, inl, inr, Bool, true, false, ◌||◌, List, [], ◌∷◌, any, All, ==→eq,
  ◌==◌, arith, Bool-cases, subst, some_injective,
}
use tempo_zk_rollup.Smirk.Bits.{Element}
use tempo_zk_rollup.Smirk.Batch
use tempo_zk_rollup.Smirk.Tree.{Tree, root_hash, contains_element}
use tempo_zk_rollup.Smirk.Tree.Valid.{IsValid}
use tempo_zk_rollup.Doomslug.Approval.{BlockHeight, CryptoHash}
use tempo_zk_rollup.Node.Utxo.{
  UtxoProof, Mode, Result, validate_txn, validate_txn_iff, input_list, output_list, leaves, IsFresh,
}
use tempo_zk_rollup.Node.Utxo
use tempo_zk_rollup.Node.Validate.{BlockContent, BlockState, block_leaves, non_null, validate}
use tempo_zk_rollup.Node.ValidBlock.{IsRoot, validate-ValidBlock}
use tempo_zk_rollup.Node.Apply.{apply_block_to_tree, applied}

module _ (merge : Element → Element → Element) where
  -- Applying a block to a well-formed tree, collisions not ignored, where it succeeds, gives a
  -- well-formed tree that holds the old elements and the leaves of the block that are not null,
  -- and no others.
  pub apply_block_to_tree-keys :
      (depth : ℕ) (t t' : Tree BlockHeight) (state : BlockState) (height : BlockHeight)
      → IsValid merge depth t
      → apply_block_to_tree merge depth t state height false ≡ Batch.ok t'
      → IsValid merge depth t'
        × ((e : Element)
            → contains_element t' e
              ≡ (any (λ x. x == e) (non_null (block_leaves state.txns)) || contains_element t e))
  apply_block_to_tree-keys depth t t' state height v h =
      let r = applied merge depth t t' state height v h in (r.0, r.1)

  roots_equal :
      (depth : ℕ) (t : Tree BlockHeight) (ls : List Element) (a b : Element)
      → IsRoot merge depth t ls a
      → IsRoot merge depth t ls b
      → a ≡ b
  roots_equal depth t [] a b p q = sym p ∙ q
  roots_equal depth t (l ∷ ls) a b p q = some_injective (sym p ∙ q)

  module _ (verify : UtxoProof → Bool) (txn_hash : UtxoProof → CryptoHash) where
    -- When a block passes validation against a well-formed tree and is then applied to that
    -- tree with success, collisions not ignored, the tree has the root that the block states.
    pub apply_block_to_tree-root :
        (depth : ℕ) (t t' : Tree BlockHeight) (content : BlockContent) (node_mode : Mode)
        (store : List (BlockHeight × Element)) (height : BlockHeight)
        → IsValid merge depth t
        → validate merge verify txn_hash depth content node_mode store t ≡ Utxo.ok tt
        → apply_block_to_tree merge depth t content.state height false ≡ Batch.ok t'
        → root_hash merge t' ≡ content.state.root_hash
    apply_block_to_tree-root depth t t' content node_mode store height v passed h =
        roots_equal depth t (non_null (block_leaves content.state.txns)) _ _
          (applied merge depth t t' content.state height v h).2
          (validate-ValidBlock merge verify txn_hash depth content node_mode store t passed).root

    any_leaf :
        (ls : List Element) (l : Element)
        → any (λ x. x == l) ls ≡ true
        → l ≢ 0
        → any (λ x. x == l) (non_null ls) ≡ true
    any_leaf [] l h n = cc
    any_leaf (x ∷ ls) l h n = ground (arith, any_leaf ls l)

    All-any :
        (tree : Tree BlockHeight) (ls : List Element) (l : Element)
        → All (IsFresh tree) ls
        → any (λ x. x == l) ls ≡ true
        → IsFresh tree l
    All-any tree [] l f h = cc
    All-any tree (x ∷ ls) l f h = elim (Bool-cases (x == l)) [
      | inl e ↦ subst (IsFresh tree) (==→eq x l e) f.0
      | inr e ↦ All-any tree ls l f.1 (ground arith)
    ]

    -- No double spend: after a block has been applied with success to a well-formed tree,
    -- collisions not ignored, `validate_txn` accepts no transaction that has a leaf of the
    -- block that is not null among its input leaves, in no mode, at no height, for no store.
    pub apply_block_to_tree-spent :
        (depth : ℕ) (t t' : Tree BlockHeight) (state : BlockState) (height : BlockHeight)
        (l : Element) (u : UtxoProof) (node_mode : Mode) (later : BlockHeight)
        (store : List (BlockHeight × Element))
        → IsValid merge depth t
        → apply_block_to_tree merge depth t state height false ≡ Batch.ok t'
        → any (λ x. x == l) (block_leaves state.txns) ≡ true
        → l ≢ 0
        → any (λ x. x == l) (input_list u) ≡ true
        → validate_txn verify txn_hash node_mode u later store t' ≢ Utxo.ok tt
    apply_block_to_tree-spent depth t t' state height l u node_mode later store v h spent n spends
          ok =
        let fresh =
          All-any t' (input_list u) l
            ((validate_txn_iff verify txn_hash node_mode u later store t').0 ok).2 spends in
        let held : contains_element t' l ≡ true =
          (applied merge depth t t' state height v h).1 l
          ∙ ap (λ b. b || contains_element t l) (any_leaf (block_leaves state.txns) l spent n) in
        elim fresh.1 [ inl z ↦ n z | inr c ↦ absurd (cc) ]
