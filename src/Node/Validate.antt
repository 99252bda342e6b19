-- ===== src/Node/Validate.antt =====
-- Blocks and their validation: pkg/node/src/block.rs.
use tempo_zk_rollup.Base.{
  ℕ, Bool, not, List, [], ◌∷◌, ◌++◌, none, some, map, filter, ◌==◌, if◌then◌else◌,
}
use tempo_zk_rollup.Base.HashMap
use tempo_zk_rollup.Base.HashMap.{nat_eq}
use tempo_zk_rollup.Smirk.Bits.{Element}
use tempo_zk_rollup.Smirk.Tree.{Tree, root_hash, root_hash_with}
use tempo_zk_rollup.Doomslug.Approval.{BlockHeight, CryptoHash}
use tempo_zk_rollup.Node.Utxo.{
  UtxoProof, leaves, Mode, Result, ok, err, panics, ◌>>=◌, leaf_already_inserted_in_the_same_block,
  invalid_block_root, validate_txn,
}

pub record BlockHeader : Type 0 where
  pub height : BlockHeight
  pub last_block_hash : CryptoHash
  pub epoch_id : ℕ
  pub last_final_block_hash : CryptoHash
  pub approvals : List ℕ

pub record BlockState : Type 0 where
  pub root_hash : Element
  pub txns : List UtxoProof

pub record BlockContent : Type 0 where
  pub header : BlockHeader
  pub state : BlockState

pub record Block : Type 0 where
  pub content : BlockContent
  pub signature : ℕ

-- The leaves of the transactions, in their order, and those that are not null.
abbrev pub block_leaves : List UtxoProof → List Element
block_leaves [] = []
block_leaves (u ∷ us) = leaves u ++ block_leaves us

abbrev pub non_null : List Element → List Element
non_null ls = filter (λ l. not (l == 0)) ls

-- The loop over the leaves of one transaction; the map holds the leaves seen so far with the
-- hashes of their transactions.
unfoldable pub collect_leaves :
    CryptoHash → List Element → List (Element × CryptoHash) → Result (List (Element × CryptoHash))
collect_leaves hash [] seen = ok seen
collect_leaves hash (leaf ∷ rest) seen =
    let skipped = collect_leaves hash rest seen in
    let recorded = collect_leaves hash rest (HashMap.insert leaf hash seen) in
    if leaf == 0 then skipped else elim (HashMap.lookup leaf seen) [
      | some existing ↦ err (leaf_already_inserted_in_the_same_block leaf existing hash)
      | none ↦ recorded
    ]

module _ (merge : Element → Element → Element) (verify : UtxoProof → Bool)
    (txn_hash : UtxoProof → CryptoHash) {V : Type 0} where
  -- The loop over the transactions.
  unfoldable pub validate_txns :
      Mode
      → BlockHeight
      → List (BlockHeight × Element)
      → Tree V
      → List UtxoProof
      → List (Element × CryptoHash)
      → Result (List (Element × CryptoHash))
  unfolding collect_leaves
  validate_txns node_mode height store tree [] seen = ok seen
  validate_txns node_mode height store tree (u ∷ us) seen = do
    seen' ← collect_leaves (txn_hash u) (leaves u) seen
    valid ← validate_txn verify txn_hash node_mode u height store tree
    validate_txns node_mode height store tree us seen'

  -- The root that the tree foretells for the leaves; the map's keys come in some order, here that of insertion.
  unfoldable pub new_root_hash : ℕ → Tree V → List (Element × CryptoHash) → Result Element
  new_root_hash depth tree [] = ok (root_hash merge tree)
  new_root_hash depth tree (x ∷ xs) =
      elim (root_hash_with merge depth tree (map (λ y. y.0) (x ∷ xs))) [
        | none ↦ panics
        | some root ↦ ok root
      ]

  -- `BlockContent::validate`.
  unfoldable pub validate :
      ℕ → BlockContent → Mode → List (BlockHeight × Element) → Tree V → Result (Unit {0})
  unfolding validate_txns new_root_hash
  validate depth content node_mode store tree = do
    txn_leaves ← validate_txns node_mode content.header.height store tree content.state.txns []
    root ← new_root_hash depth tree txn_leaves
    (if root == content.state.root_hash
        then ok tt
        else err (invalid_block_root root content.state.root_hash))
