-- ===== src/Node/Utxo.antt =====
-- Transactions: pkg/node/src/utxo.rs, and the proof record of pkg/zk-circuits/src/data.rs.
use tempo_zk_rollup.Base.{
  ℕ, ◌+◌, ◌-◌, ◌<◌, ◌≡◌, refl, ◌⊎◌, ◌↔◌, Bool, true, false, not, ◌&&◌, List, [], ◌∷◌, ◌++◌, any,
  All, ltb, leb, ◌==◌, if◌then◌else◌, arith,
}
use tempo_zk_rollup.Smirk.Bits.{Element}
use tempo_zk_rollup.Smirk.Tree.{Tree, contains_element}
use tempo_zk_rollup.Doomslug.Approval.{BlockHeight, CryptoHash}

-- The arrays of two leaves are pairs; `proof` is handed to the verifier as it is.
pub record UtxoProof : Type 0 where
  pub recent_root : Element
  pub mb_hash : Element
  pub mb_value : Element
  pub input_leaves : Element × Element
  pub output_leaves : Element × Element
  pub proof : List ℕ

-- `input_leaves` and `output_leaves`, walked as the loops do.
abbrev pub input_list : UtxoProof → List Element
input_list u = u.input_leaves.0 ∷ u.input_leaves.1 ∷ []

abbrev pub output_list : UtxoProof → List Element
output_list u = u.output_leaves.0 ∷ u.output_leaves.1 ∷ []

-- `UTXOProof::leaves`.
abbrev pub leaves : UtxoProof → List Element
leaves u = input_list u ++ output_list u

pub data Mode : Type 0 where
  validator node prover mock_prover : Mode

-- `Mode::is_prover`.
abbrev pub is_prover : Mode → Bool
is_prover validator = false
is_prover node = false
is_prover prover = true
is_prover mock_prover = true

-- The variants of `Error` that the modelled code answers with; the last four stand for the errors
-- of the Ethereum client, of the contract, of the block store and of the tree.
pub data Error : Type 0 where
  invalid_proof : Error
  invalid_signature : Error
  note_already_spent : Element → CryptoHash → Error
  leaf_already_inserted_in_the_same_block : Element → CryptoHash → CryptoHash → Error
  output_note_exists : Element → Error
  invalid_element_size : Element → Error
  utxo_root_is_not_recent_enough : Element → List Element → CryptoHash → Error
  invalid_block_root : Element → Element → Error
  mint_is_not_in_the_contract : Element → Error
  burn_is_not_in_the_contract : Element → Error
  invalid_mint_or_burn_leaves : Error
  invalid_transaction : CryptoHash → Error
  failed_to_get_eth_block_number : Error
  contract_error : Error
  block_store_error : Error
  smirk_collision_error : Error

-- `Result`, with the panics.
pub data Result (A : Type 0) : Type 0 where
  ok : A → Result A
  err : Error → Result A
  panics : Result A

infixl 20 ◌>>=◌
abbrev pub ◌>>=◌ : {A B : Type 0} → Result A → (A → Result B) → Result B
ok a >>= f = f a
err e >>= f = err e
panics >>= f = panics

-- `Element::MODULUS`.
abbrev pub modulus : Element
modulus = 0x30644e72e131a029b85045b68181585d2833e84879b9709143e1f593f0000001

abbrev pub recent_root_count : ℕ
recent_root_count = 64

-- The loops over the leaves of a transaction, with the error for a leaf that the tree has.
unfoldable pub check_leaves :
    {V : Type 0} → (Element → Error) → Tree V → List Element → Result (Unit {0})
check_leaves found tree [] = ok tt
check_leaves found tree (leaf ∷ rest) =
    let later = check_leaves found tree rest in
    if leb modulus leaf
    then err (invalid_element_size leaf)
    else (if not (leaf == 0) && contains_element tree leaf then err (found leaf) else later)

-- The roots of the stored blocks with heights in `start..end`, the lowest first.
abbrev pub list_roots : List (BlockHeight × Element) → BlockHeight → BlockHeight → List Element
list_roots [] start end = []
list_roots ((h, root) ∷ blocks) start end =
    let rest = list_roots blocks start end in if leb start h && ltb h end then root ∷ rest else rest

-- The check of the recent root. The store is the ascending list of the heights that it has, with
-- the roots of the blocks; a failing read is not modelled. The height above the given one is a `u64`.
unfoldable pub check_recent_root :
    Mode → UtxoProof → CryptoHash → BlockHeight → List (BlockHeight × Element) → Result (Unit {0})
check_recent_root node_mode utxo hash height block_store =
    let next_block = height + 1 in
    let recent_roots = list_roots block_store (next_block - recent_root_count) next_block in
    if utxo.recent_root == 0
    then ok tt
    else (if not (any (λ r. r == utxo.recent_root) recent_roots) && not (is_prover node_mode)
        then err (utxo_root_is_not_recent_enough utxo.recent_root recent_roots hash)
        else ok tt)

module _ (verify : UtxoProof → Bool) (txn_hash : UtxoProof → CryptoHash) {V : Type 0} where
  -- `validate_txn`.
  unfoldable pub validate_txn :
      Mode → UtxoProof → BlockHeight → List (BlockHeight × Element) → Tree V → Result (Unit {0})
  unfolding check_leaves check_recent_root
  validate_txn node_mode utxo height block_store tree =
      if verify utxo
      then (do
        root ← check_recent_root node_mode utxo (txn_hash utxo) height block_store
        inputs ← check_leaves (λ l. note_already_spent l (txn_hash utxo)) tree (input_list utxo)
        check_leaves output_note_exists tree (output_list utxo))
      else err invalid_proof

-- A leaf that may go into the tree: in the field, and null or not there yet.
abbrev pub IsFresh : {V : Type 0} → Tree V → Element → Type 0
IsFresh tree l = (l < modulus) × ((l ≡ 0) ⊎ (contains_element tree l ≡ false))

-- The recent root is null, or one of the roots of the last 64 blocks, or the node proves.
abbrev pub IsRecent : Mode → UtxoProof → BlockHeight → List (BlockHeight × Element) → Type 0
IsRecent node_mode u height store =
    (u.recent_root ≡ 0)
    ⊎ ((any (λ r. r == u.recent_root) (list_roots store (height + 1 - 64) (height + 1)) ≡ true)
        ⊎ (is_prover node_mode ≡ true))

pub check_leaves_iff :
    {V : Type 0} (found : Element → Error) (tree : Tree V) (ls : List Element)
    → (check_leaves found tree ls ≡ ok tt) ↔ All (IsFresh tree) ls
unfolding check_leaves
check_leaves_iff found tree [] = (λ h. tt, λ h. refl)
check_leaves_iff found tree (l ∷ ls) = ground (arith, check_leaves_iff found tree ls)

check_recent_root_iff :
    (node_mode : Mode) (u : UtxoProof) (hash : CryptoHash) (height : BlockHeight)
    (store : List (BlockHeight × Element))
    → (check_recent_root node_mode u hash height store ≡ ok tt) ↔ IsRecent node_mode u height store
unfolding check_recent_root
check_recent_root_iff node_mode u hash height store = ground arith

module _ (verify : UtxoProof → Bool) (txn_hash : UtxoProof → CryptoHash) {V : Type 0} where
  -- `validate_txn` accepts a transaction just when its proof verifies, its root is null, or
  -- among those of the last 64 blocks, or the node is a prover, and every leaf is below the
  -- modulus and, unless null, not in the tree.
  pub validate_txn_iff :
      (node_mode : Mode) (u : UtxoProof) (height : BlockHeight)
      (store : List (BlockHeight × Element)) (tree : Tree V)
      → (validate_txn verify txn_hash node_mode u height store tree ≡ ok tt) ↔ (
          (verify u ≡ true)
          × IsRecent node_mode u height store
          × All (IsFresh tree) (input_list u)
          × All (IsFresh tree) (output_list u))
  unfolding validate_txn
  validate_txn_iff node_mode u height store tree = ground (
    arith,
    check_recent_root_iff node_mode u (txn_hash u) height store,
    check_leaves_iff (λ l. note_already_spent l (txn_hash u)) tree (input_list u),
    check_leaves_iff output_note_exists tree (output_list u),
  )
