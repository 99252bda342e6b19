-- ===== src/Node/ValidBlock/Iff.antt =====
-- Every block that looks like a valid one is let through by `validate` of pkg/node/src/block.rs.
use tempo_zk_rollup.Base.{
  ℕ, ◌≡◌, refl, sym, ap, ◌∙◌, ◌↔◌, inl, inr, Bool, false, List, [], ◌∷◌, ◌++◌, none, map, any, All,
  ◌==◌, if◌then◌else◌, arith, Bool-cases, subst,
}
use tempo_zk_rollup.Base.HashMap
use tempo_zk_rollup.Base.HashMap.{nat_eq}
use tempo_zk_rollup.Smirk.Bits.{Element}
use tempo_zk_rollup.Smirk.Tree.{Tree}
use tempo_zk_rollup.Doomslug.Approval.{BlockHeight, CryptoHash}
use tempo_zk_rollup.Node.Utxo.{UtxoProof, leaves, Mode, Result, ok, ◌>>=◌, validate_txn}
use tempo_zk_rollup.Node.Utxo
use tempo_zk_rollup.Node.Validate.{
  BlockContent, block_leaves, non_null, collect_leaves, validate_txns, new_root_hash, validate,
}
use tempo_zk_rollup.Node.ValidBlock.{
  IsUnique, IsRoot, ValidBlock, insert_new, append_assoc, append_nil, non_null-append,
  validate-ValidBlock,
}

lookup_unique :
    (l : Element) (m : List (Element × CryptoHash)) (rest : List Element)
    → IsUnique (map (λ x. x.0) m ++ l ∷ rest)
    → HashMap.lookup l m ≡ none
lookup_unique l [] rest u = refl
lookup_unique l ((j, v) ∷ m) rest u =
    ground (arith, lookup_unique l m rest u.1, differs (map (λ x. x.0) m) u.0)
  where
    differs : (ks : List Element) → any (λ y. y == j) (ks ++ l ∷ rest) ≡ false → (l == j) ≡ false
    differs [] n = ground arith
    differs (k ∷ ks) n = ground (arith, differs ks)

-- The loop over leaves that are all new ends well, with the leaves behind the old keys.
collect_leaves_ok :
    (hash : CryptoHash) (ls rest : List Element) (m : List (Element × CryptoHash))
    → IsUnique (map (λ x. x.0) m ++ (non_null ls ++ rest))
    → (m' : List (Element × CryptoHash)) × (collect_leaves hash ls m ≡ ok m')
      × (map (λ x. x.0) m' ≡ map (λ x. x.0) m ++ non_null ls)
unfolding collect_leaves
collect_leaves_ok hash [] rest m u = (m, refl, sym (append_nil (map (λ x. x.0) m)))
collect_leaves_ok hash (l ∷ ls) rest m u = elim (Bool-cases (l == 0)) [
  | inl e ↦ rw (e, collect_leaves) (collect_leaves_ok hash ls rest m (rw e at u))
  | inr e ↦
      let u' : IsUnique (map (λ x. x.0) m ++ l ∷ (non_null ls ++ rest)) = rw e at u in
      let new = lookup_unique l m (non_null ls ++ rest) u' in
      let keys = insert_new l hash m new in
      let (m', p, q) = collect_leaves_ok hash ls rest (HashMap.insert l hash m) (
        subst IsUnique
          (sym (append_assoc (map (λ x. x.0) m) (l ∷ []) (non_null ls ++ rest))
            ∙ ap (λ t. t ++ (non_null ls ++ rest)) (sym keys))
          u') in
      rw (e, new, collect_leaves)
        (
          m',
          p,
          q
              ∙ ap (λ t. t ++ non_null ls) keys
              ∙ append_assoc (map (λ x. x.0) m) (l ∷ []) (non_null ls),
        )
]

module _ (merge : Element → Element → Element) (verify : UtxoProof → Bool)
    (txn_hash : UtxoProof → CryptoHash) {V : Type 0} where
  validate_txns_ok :
      (node_mode : Mode) (height : BlockHeight) (store : List (BlockHeight × Element))
      (tree : Tree V) (us : List UtxoProof) (m : List (Element × CryptoHash))
      → IsUnique (map (λ x. x.0) m ++ non_null (block_leaves us))
      → All (λ u. validate_txn verify txn_hash node_mode u height store tree ≡ ok tt) us
      → (m' : List (Element × CryptoHash)) × (validate_txns merge verify txn_hash node_mode height
            store tree us m
          ≡ ok m')
        × (map (λ x. x.0) m' ≡ map (λ x. x.0) m ++ non_null (block_leaves us))
  unfolding validate_txns
  validate_txns_ok node_mode height store tree [] m u h =
      (m, refl, sym (append_nil (map (λ x. x.0) m)))
  validate_txns_ok node_mode height store tree (x ∷ us) m u h =
      let split = non_null-append (leaves x) (block_leaves us) in
      let (seen, p, q) =
        collect_leaves_ok (txn_hash x) (leaves x) (non_null (block_leaves us)) m
          (subst (λ t. IsUnique (map (λ y. y.0) m ++ t)) split u) in
      let all =
        sym (append_assoc (map (λ y. y.0) m) (non_null (leaves x)) (non_null (block_leaves us)))
        ∙ ap (λ t. t ++ non_null (block_leaves us)) (sym q) in
      let (m', r, s) =
        validate_txns_ok node_mode height store tree us seen
          (subst IsUnique (ap (λ t. map (λ y. y.0) m ++ t) split ∙ all) u) h.1 in
      (m', rw (p, h.0, validate_txns) r, s ∙ sym all ∙ ap (λ t. map (λ y. y.0) m ++ t) (sym split))

  new_root_hash_ok :
      (depth : ℕ) (tree : Tree V) (m : List (Element × CryptoHash)) (root : Element)
      → IsRoot merge depth tree (map (λ x. x.0) m) root
      → new_root_hash merge verify txn_hash depth tree m ≡ ok root
  unfolding new_root_hash
  new_root_hash_ok depth tree [] root h = ap ok h
  new_root_hash_ok depth tree (x ∷ xs) root h = rw (h, new_root_hash)

  -- `validate` lets a block through just when no leaf comes twice in it unless it is null,
  -- `validate_txn` accepts every transaction at the height of the block, and the stated root is
  -- what `root_hash_with` answers for the leaves that are not null, or the tree's own root
  -- where there is none.
  pub validate_iff :
      (depth : ℕ) (content : BlockContent) (node_mode : Mode) (store : List (BlockHeight × Element))
      (tree : Tree V)
      → (validate merge verify txn_hash depth content node_mode store tree ≡ ok tt)
        ↔ ValidBlock merge verify txn_hash depth content node_mode store tree
  unfolding validate
  validate_iff depth content node_mode store tree =
      (validate-ValidBlock merge verify txn_hash depth content node_mode store tree, passes)
    where
      same :
          ◌≡◌ {A = Result (Unit {0})}
            (if content.state.root_hash == content.state.root_hash
              then ok tt
              else Utxo.err
                  (Utxo.invalid_block_root content.state.root_hash content.state.root_hash))
            (ok tt)
      same = ground arith

      passes :
          ValidBlock merge verify txn_hash depth content node_mode store tree
          → validate merge verify txn_hash depth content node_mode store tree ≡ ok tt
      passes b =
          let (m, p, q) =
            validate_txns_ok node_mode content.header.height store tree content.state.txns []
              b.unique b.valid in
          let r =
            new_root_hash_ok depth tree m content.state.root_hash
              (subst (λ t. IsRoot merge depth tree t content.state.root_hash) (sym q) b.root) in
          rw (p, r, validate) same
