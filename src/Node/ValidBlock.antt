-- ===== src/Node/ValidBlock.antt =====
-- What a block that `validate` of pkg/node/src/block.rs lets through looks like.
pub mod Iff
use tempo_zk_rollup.Base.{
  ℕ, ◌≡◌, refl, sym, ap, ◌∙◌, inl, inr, Bool, false, List, [], ◌∷◌, ◌++◌, none, some, map, any, All,
  ◌==◌, if◌then◌else◌, arith, Bool-cases, Option-cases, subst,
}
use tempo_zk_rollup.Base.HashMap
use tempo_zk_rollup.Base.HashMap.{nat_eq}
use tempo_zk_rollup.Smirk.Bits.{Element}
use tempo_zk_rollup.Smirk.Tree.{Tree, root_hash, root_hash_with}
use tempo_zk_rollup.Doomslug.Approval.{BlockHeight, CryptoHash}
use tempo_zk_rollup.Node.Utxo.{
  UtxoProof, leaves, Mode, Error, Result, ok, err, panics, ◌>>=◌, validate_txn,
}
use tempo_zk_rollup.Node.Utxo
use tempo_zk_rollup.Node.Validate.{
  BlockContent, block_leaves, non_null, collect_leaves, validate_txns, new_root_hash, validate,
}

ok-injective : {A : Type 0} {a b : A} → ok a ≡ ok b → a ≡ b
ok-injective p = cc

bind_ok :
    {A B : Type 0} {y : B} (first : Result A) (next : A → Result B)
    → (first >>= next) ≡ ok y
    → (x : A) × (first ≡ ok x) × (next x ≡ ok y)
bind_ok (err problem) next h = cc
bind_ok panics next h = cc
bind_ok (ok x) next h = (x, refl, h)

-- No element comes twice.
abbrev pub IsUnique : List Element → Type 0
IsUnique [] = Unit
IsUnique (x ∷ xs) = (any (λ y. y == x) xs ≡ false) × IsUnique xs

IsUnique-snoc :
    (xs : List Element) (x : Element)
    → IsUnique xs
    → any (λ y. y == x) xs ≡ false
    → IsUnique (xs ++ x ∷ [])
IsUnique-snoc [] x u h = (refl, tt)
IsUnique-snoc (y ∷ xs) x u h =
    (any_snoc xs (ground arith) u.0, IsUnique-snoc xs x u.1 (ground arith))
  where
    any_snoc :
        (zs : List Element)
        → (x == y) ≡ false
        → any (λ z. z == y) zs ≡ false
        → any (λ z. z == y) (zs ++ x ∷ []) ≡ false
    any_snoc [] n k = ground arith
    any_snoc (z ∷ zs) n k = ground (arith, any_snoc zs n)

any-lookup :
    (k : Element) (m : List (Element × CryptoHash))
    → HashMap.lookup k m ≡ none
    → any (λ y. y == k) (map (λ x. x.0) m) ≡ false
any-lookup k [] h = refl
any-lookup k ((j, v) ∷ m) h = ground (arith, any-lookup k m)

pub insert_new :
    (k : Element) (v : CryptoHash) (m : List (Element × CryptoHash))
    → HashMap.lookup k m ≡ none
    → map (λ x. x.0) (HashMap.insert k v m) ≡ map (λ x. x.0) m ++ k ∷ []
insert_new k v [] h = refl
insert_new k v ((j, w) ∷ m) h = ground (arith, insert_new k v m)

pub append_assoc : (xs ys zs : List Element) → (xs ++ ys) ++ zs ≡ xs ++ (ys ++ zs)
append_assoc [] ys zs = refl
append_assoc (x ∷ xs) ys zs = rw (append_assoc xs ys zs)

pub append_nil : (xs : List Element) → xs ++ [] ≡ xs
append_nil [] = refl
append_nil (x ∷ xs) = rw (append_nil xs)

-- The map that the loop leaves has the leaves that are not null behind its old keys, none twice.
collect_leaves_lem :
    (hash : CryptoHash) (ls : List Element) (m m' : List (Element × CryptoHash))
    → collect_leaves hash ls m ≡ ok m'
    → IsUnique (map (λ x. x.0) m)
    → (map (λ x. x.0) m' ≡ map (λ x. x.0) m ++ non_null ls) × IsUnique (map (λ x. x.0) m')
unfolding collect_leaves
collect_leaves_lem hash [] m m' h u =
    subst (λ t. (map (λ x. x.0) t ≡ map (λ x. x.0) m ++ []) × IsUnique (map (λ x. x.0) t))
      (ok-injective h) (sym (append_nil (map (λ x. x.0) m)), u)
collect_leaves_lem hash (l ∷ ls) m m' h u = elim (Bool-cases (l == 0)) [
  | inl e ↦ let r = collect_leaves_lem hash ls m m' (rw e at h) u in rw e r
  | inr e ↦ elim (Option-cases (HashMap.lookup l m)) [
    | inr (v, n) ↦ absurd (err≢ok (rw (e, n) at h))
    | inl n ↦
        let keys = insert_new l hash m n in
        let r =
          collect_leaves_lem hash ls (HashMap.insert l hash m) m' (rw (e, n) at h)
            (subst IsUnique (sym keys) (IsUnique-snoc (map (λ x. x.0) m) l u (any-lookup l m n))) in
        rw e (
          r.0
              ∙ ap (λ t. t ++ non_null ls) keys
              ∙ append_assoc (map (λ x. x.0) m) (l ∷ []) (non_null ls),
          r.1,
        )
  ]
]
  where
    err≢ok : {A : Type 0} {e : Error} {a : A} → err e ≡ ok a → ⊥
    err≢ok q = cc

pub non_null-append : (xs ys : List Element) → non_null (xs ++ ys) ≡ non_null xs ++ non_null ys
non_null-append [] ys = refl
non_null-append (x ∷ xs) ys = ground (arith, non_null-append xs ys)

module _ (merge : Element → Element → Element) {V : Type 0} where
  -- The root is what `root_hash_with` answers for the leaves, or the tree's own without leaves.
  abbrev pub IsRoot : ℕ → Tree V → List Element → Element → Type 0
  IsRoot depth tree [] root = root_hash merge tree ≡ root
  IsRoot depth tree (l ∷ ls) root = root_hash_with merge depth tree (l ∷ ls) ≡ some root

module _ (merge : Element → Element → Element) (verify : UtxoProof → Bool)
    (txn_hash : UtxoProof → CryptoHash) {V : Type 0} where
  pub record ValidBlock (depth : ℕ) (content : BlockContent) (node_mode : Mode)
      (store : List (BlockHeight × Element)) (tree : Tree V) : Type 0 where
    pub unique : IsUnique (non_null (block_leaves content.state.txns))
    pub valid :
        All
          (λ u. validate_txn verify txn_hash node_mode u content.header.height store tree ≡ ok tt)
          content.state.txns
    pub root :
        IsRoot merge depth tree (non_null (block_leaves content.state.txns)) content.state.root_hash

  validate_txns_lem :
      (node_mode : Mode) (height : BlockHeight) (store : List (BlockHeight × Element))
      (tree : Tree V) (us : List UtxoProof) (m m' : List (Element × CryptoHash))
      → validate_txns merge verify txn_hash node_mode height store tree us m ≡ ok m'
      → IsUnique (map (λ x. x.0) m)
      → (map (λ x. x.0) m' ≡ map (λ x. x.0) m ++ non_null (block_leaves us))
        × IsUnique (map (λ x. x.0) m')
        × All (λ u. validate_txn verify txn_hash node_mode u height store tree ≡ ok tt) us
  unfolding validate_txns
  validate_txns_lem node_mode height store tree [] m m' h u =
      subst (λ t. (map (λ x. x.0) t ≡ map (λ x. x.0) m ++ []) × IsUnique (map (λ x. x.0) t) × Unit)
        (ok-injective h) (sym (append_nil (map (λ x. x.0) m)), u, tt)
  validate_txns_lem node_mode height store tree (x ∷ us) m m' h u =
      let (seen, p, q) = bind_ok (collect_leaves (txn_hash x) (leaves x) m) _ h in
      let (v, r, s) = bind_ok (validate_txn verify txn_hash node_mode x height store tree) _ q in
      let first = collect_leaves_lem (txn_hash x) (leaves x) m seen p u in
      let rest = validate_txns_lem node_mode height store tree us seen m' s first.1 in
      (
        rest.0
            ∙ ap (λ t. t ++ non_null (block_leaves us)) first.0
            ∙ append_assoc (map (λ y. y.0) m) (non_null (leaves x)) (non_null (block_leaves us))
            ∙ ap (λ t. map (λ y. y.0) m ++ t) (sym (non_null-append (leaves x) (block_leaves us))),
        rest.1,
        (r, rest.2),
      )

  new_root_hash-IsRoot :
      (depth : ℕ) (tree : Tree V) (m : List (Element × CryptoHash)) (root : Element)
      → new_root_hash merge verify txn_hash depth tree m ≡ ok root
      → IsRoot merge depth tree (map (λ x. x.0) m) root
  unfolding new_root_hash
  new_root_hash-IsRoot depth tree [] root h = ok-injective h
  new_root_hash-IsRoot depth tree (x ∷ xs) root h =
      elim (Option-cases (root_hash_with merge depth tree (map (λ y. y.0) (x ∷ xs)))) [
        | inl n ↦ absurd (panics≢ok (rw (n, new_root_hash) at h))
        | inr (r, n) ↦ n ∙ ap some (ok-injective (rw (n, new_root_hash) at h))
      ]
    where
      panics≢ok : {A : Type 0} {a : A} → panics ≡ ok a → ⊥
      panics≢ok q = cc

  -- In a block that `validate` lets through, no leaf comes twice unless it is null, every
  -- transaction is valid, and the stated root is what `root_hash_with` answers for the leaves.
  pub validate-ValidBlock :
      (depth : ℕ) (content : BlockContent) (node_mode : Mode) (store : List (BlockHeight × Element))
      (tree : Tree V)
      → validate merge verify txn_hash depth content node_mode store tree ≡ ok tt
      → ValidBlock depth content node_mode store tree
  unfolding validate
  validate-ValidBlock depth content node_mode store tree h =
      let (m, p, q) =
        bind_ok
          (validate_txns merge verify txn_hash node_mode content.header.height store tree
            content.state.txns [])
          _ h in
      let (root, r, s) = bind_ok (new_root_hash merge verify txn_hash depth tree m) _ q in
      let (keys, unique, valid) =
        validate_txns_lem node_mode content.header.height store tree content.state.txns [] m p tt in
      record {
        unique = subst IsUnique keys unique;
        valid = valid;
        root =
            subst (λ t. IsRoot merge depth tree (non_null (block_leaves content.state.txns)) t)
              (same root s)
              (subst (λ t. IsRoot merge depth tree t root) keys
                (new_root_hash-IsRoot depth tree m root r));
      }
    where
      same :
          (root : Element)
          → ◌≡◌ {A = Result (Unit {0})}
              (if root == content.state.root_hash
                then ok tt
                else err (Utxo.invalid_block_root root content.state.root_hash))
              (ok tt)
          → root ≡ content.state.root_hash
      same root s = ground arith
