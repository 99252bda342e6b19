-- ===== src/Node/Transaction.antt =====
-- Transactions from outside: pkg/node/src/node/transaction.rs. The Ethereum client and the contract
-- are arguments; a call of theirs that fails gives `none`.
use tempo_zk_rollup.Base.{
  ℕ, ◌-◌, ◌≡◌, ◌≢◌, ◌⊎◌, ◌↔◌, Bool, true, false, not, ◌&&◌, List, All, Option, none, some, ◌==◌,
  if◌then◌else◌, arith,
}
use tempo_zk_rollup.Smirk.Bits.{Element}
use tempo_zk_rollup.Smirk.Tree.{Tree}
use tempo_zk_rollup.Doomslug.Approval.{BlockHeight, CryptoHash}
use tempo_zk_rollup.Node.Utxo.{
  UtxoProof, leaves, Mode, Result, ok, err, panics, ◌>>=◌, validate_txn, IsRecent, IsFresh,
  mint_is_not_in_the_contract, burn_is_not_in_the_contract, invalid_mint_or_burn_leaves,
  failed_to_get_eth_block_number, contract_error, validate_txn_iff, input_list, output_list,
}
use tempo_zk_rollup.Node.Mempool.{MempoolState, add}
use tempo_zk_rollup.Base.HashMap.{nat_eq}

-- What the node asks of Ethereum: the number of the last block, and at a height whether there is a
-- mint or a burn of a key.
pub record Ethereum : Type 0 where
  pub block_number : Option ℕ
  pub get_mint : ℕ → Element → Option Bool
  pub has_burn : ℕ → Element → Option Bool

abbrev pub is_mint_or_burn : UtxoProof → Bool
is_mint_or_burn u = not (u.mb_hash == 0) && not (u.mb_value == 0)

-- The two shapes of the leaves, with the key.
pub data MintOrBurn : Type 0 where
  mint : Element → MintOrBurn
  burn : Element → MintOrBurn
  neither : MintOrBurn

-- The patterns of the `match` on the leaves, in their order.
abbrev pub mint_or_burn : UtxoProof → MintOrBurn
mint_or_burn u =
    if u.input_leaves.0 == 0 && u.input_leaves.1 == 0 && u.output_leaves.1 == 0
    then mint u.output_leaves.0
    else (if u.input_leaves.1 == 0 && u.output_leaves.0 == 0 && u.output_leaves.1 == 0
        then burn u.input_leaves.0
        else neither)

-- The answer of the contract to a question about a key.
abbrev pub confirmed : Result (Unit {0}) → Option Bool → Result (Unit {0})
confirmed absent none = err contract_error
confirmed absent (some true) = ok tt
confirmed absent (some false) = absent

-- The questions about a mint or a burn, at a height.
abbrev pub ask_contract : Ethereum → ℕ → UtxoProof → Result (Unit {0})
ask_contract eth safe_eth_height u = elim (mint_or_burn u) [
  | mint key ↦ confirmed (err (mint_is_not_in_the_contract key)) (eth.get_mint safe_eth_height key)
  | burn key ↦ confirmed (err (burn_is_not_in_the_contract key)) (eth.has_burn safe_eth_height key)
  | neither ↦ err invalid_mint_or_burn_leaves
]

-- The check of a mint or a burn in `validate_transaction`; the subtraction stops at 0 as there.
unfoldable pub check_mint_or_burn : Ethereum → ℕ → UtxoProof → Result (Unit {0})
check_mint_or_burn eth safe_eth_height_offset u =
    if is_mint_or_burn u
    then elim eth.block_number [
      | none ↦ err failed_to_get_eth_block_number
      | some n ↦ ask_contract eth (n - safe_eth_height_offset) u
    ]
    else ok tt

-- All leaves but the first output are null; all but the first input are null.
abbrev pub IsMint : UtxoProof → Type 0
IsMint u = (u.input_leaves.0 ≡ 0) × (u.input_leaves.1 ≡ 0) × (u.output_leaves.1 ≡ 0)

abbrev pub IsBurn : UtxoProof → Type 0
IsBurn u = (u.input_leaves.1 ≡ 0) × (u.output_leaves.0 ≡ 0) × (u.output_leaves.1 ≡ 0)

-- No mint or burn is claimed, or the contract had it at the safe height under the leaf's key.
abbrev pub IsConfirmed : Ethereum → ℕ → UtxoProof → Type 0
IsConfirmed eth offset u =
    (u.mb_hash ≡ 0)
    ⊎ (u.mb_value ≡ 0)
    ⊎ ((u.mb_hash ≢ 0)
        × (u.mb_value ≢ 0)
        × (n : ℕ) × (eth.block_number ≡ some n)
        × ((IsMint u × (eth.get_mint (n - offset) u.output_leaves.0 ≡ some true))
            ⊎ (¬ IsMint u × IsBurn u × (eth.has_burn (n - offset) u.input_leaves.0 ≡ some true))))

check_mint_or_burn_iff :
    (eth : Ethereum) (offset : ℕ) (u : UtxoProof)
    → (check_mint_or_burn eth offset u ≡ ok tt) ↔ IsConfirmed eth offset u
unfolding check_mint_or_burn
check_mint_or_burn_iff eth offset u = ground arith

module _ (verify : UtxoProof → Bool) (txn_hash : UtxoProof → CryptoHash) {V : Type 0} where
  -- `validate_transaction`.
  unfoldable pub validate_transaction :
      Ethereum
      → ℕ
      → Mode
      → UtxoProof
      → BlockHeight
      → List (BlockHeight × Element)
      → Tree V
      → Result (Unit {0})
  unfolding check_mint_or_burn validate_txn
  validate_transaction eth safe_eth_height_offset node_mode u height store tree = do
    confirmed_at_height ← check_mint_or_burn eth safe_eth_height_offset u
    validate_txn verify txn_hash node_mode u height store tree

  -- `receive_transaction`: a transaction that is not valid is dropped without an error.
  unfoldable pub receive_transaction :
      Ethereum
      → ℕ
      → Mode
      → UtxoProof
      → BlockHeight
      → List (BlockHeight × Element)
      → Tree V
      → MempoolState CryptoHash UtxoProof BlockHeight Element
      → Option (MempoolState CryptoHash UtxoProof BlockHeight Element)
  unfolding validate_transaction
  receive_transaction eth safe_eth_height_offset node_mode u height store tree mempool =
      elim (validate_transaction eth safe_eth_height_offset node_mode u height store tree) [
        | ok t ↦ some (add (txn_hash u) u (leaves u) none mempool)
        | err e ↦ some mempool
        | panics ↦ none
      ]

  -- `validate_transaction` accepts a transaction just when two things hold. Its mint-burn hash
  -- or value is null, or the number of the last Ethereum block can be read and the contract
  -- had, at that number less the offset or at 0 where the offset is larger, the mint of the
  -- first output leaf, where all other leaves are null, or the burn of the first input leaf,
  -- where all other leaves are null and it is not of the shape of a mint. And its proof
  -- verifies, its root is null, or among those of the last 64 blocks, or the node is a prover,
  -- and every leaf is below the modulus and, unless null, not in the tree.
  pub validate_transaction_iff :
      (eth : Ethereum) (offset : ℕ) (node_mode : Mode) (u : UtxoProof) (height : BlockHeight)
      (store : List (BlockHeight × Element)) (tree : Tree V)
      → (validate_transaction eth offset node_mode u height store tree ≡ ok tt) ↔ (
          IsConfirmed eth offset u
          × (verify u ≡ true)
          × IsRecent node_mode u height store
          × All (IsFresh tree) (input_list u)
          × All (IsFresh tree) (output_list u))
  unfolding validate_transaction
  validate_transaction_iff eth offset node_mode u height store tree = ground (
    arith,
    check_mint_or_burn_iff eth offset u,
    validate_txn_iff verify txn_hash node_mode u height store tree,
  )
