-- ===== src/Node/Leader.antt =====
-- Whose block it is: `validate_block` of pkg/node/src/node/block.rs, and the leader of a height,
-- pkg/node/src/node.rs. The validators of a height come from the contract.
use tempo_zk_rollup.Base.{
  ℕ, ◌%◌, ◌≡◌, ◌⊎◌, ◌↔◌, Bool, true, List, [], ◌∷◌, Option, none, some, length, get_elem?, any,
  ◌==◌, if◌then◌else◌, arith,
}
use tempo_zk_rollup.Smirk.Bits.{Element}
use tempo_zk_rollup.Smirk.Tree.{Tree}
use tempo_zk_rollup.Doomslug.Approval.{Address, BlockHeight, CryptoHash}
use tempo_zk_rollup.Node.Utxo.{UtxoProof, Mode, Result, ok, err, panics, invalid_signature}
use tempo_zk_rollup.Node.Validate.{Block, validate}
use tempo_zk_rollup.Node.ValidBlock.{ValidBlock}
use tempo_zk_rollup.Node.ValidBlock.Iff.{validate_iff}

-- `get_leader_for_block_height`; without validators the remainder panics.
unfoldable pub get_leader_for_block_height :
    (BlockHeight → List Address) → BlockHeight → Option Address
get_leader_for_block_height validators_for_height height = elim (validators_for_height height) [
  | [] ↦ none
  | v ∷ vs ↦ get_elem? (v ∷ vs) (height % length (v ∷ vs))
]

-- The validator at the place of the height, counted around the list.
abbrev pub IsLeader : List Address → BlockHeight → Address → Type 0
IsLeader validators height leader = get_elem? validators (height % length validators) ≡ some leader

get_leader_for_block_height_iff :
    (validators_for_height : BlockHeight → List Address) (height : BlockHeight) (leader : Address)
    → (get_leader_for_block_height validators_for_height height ≡ some leader)
      ↔ IsLeader (validators_for_height height) height leader
unfolding get_leader_for_block_height
get_leader_for_block_height_iff validators_for_height height leader =
    by_list (validators_for_height height)
  where
    by_list :
        (vs : List Address)
        → ((elim vs as (λ x. Option Address) [
          | [] ↦ none
          | v ∷ ws ↦ get_elem? (v ∷ ws) (height % length (v ∷ ws))
        ])
            ≡ some leader)
          ↔ IsLeader vs height leader
    by_list [] = ground arith
    by_list (v ∷ ws) = (λ q. q, λ q. q)

module _ (merge : Element → Element → Element) (verify : UtxoProof → Bool)
    (txn_hash : UtxoProof → CryptoHash) (signer : ℕ → CryptoHash → Option Address)
    (block_hash : Block → CryptoHash) (validators_for_height : BlockHeight → List Address)
    {V : Type 0} where
  -- `validate_block`; `signer` is `Signature::verify`.
  unfoldable pub validate_block :
      ℕ
      → List BlockHeight
      → Mode
      → List (BlockHeight × Element)
      → Tree V
      → Block
      → Result (Unit {0})
  unfolding get_leader_for_block_height
  validate_block depth bad_blocks node_mode store tree block =
      if any (λ h. h == block.content.header.height) bad_blocks
      then ok tt
      else elim (get_leader_for_block_height validators_for_height block.content.header.height) [
        | none ↦ panics
        | some leader ↦ elim (signer block.signature (block_hash block)) [
          | none ↦ err invalid_signature
          | some signed_by ↦
              (if signed_by == leader
                then validate merge verify txn_hash depth block.content node_mode store tree
                else err invalid_signature)
        ]
      ]

  -- `validate_block` accepts a block just when its height is one of the bad blocks of the
  -- configuration, or the following holds: the validator at the place of the height in the list
  -- of validators, counted around it, signed the block, no leaf comes twice in it unless it is
  -- null, `validate_txn` accepts every transaction, and the stated root is what
  -- `root_hash_with` answers for the leaves that are not null, or the tree's own root where
  -- there is none.
  pub validate_block_iff :
      (depth : ℕ) (bad_blocks : List BlockHeight) (node_mode : Mode)
      (store : List (BlockHeight × Element)) (tree : Tree V) (block : Block)
      → (validate_block depth bad_blocks node_mode store tree block ≡ ok tt) ↔ (
          (any (λ h. h == block.content.header.height) bad_blocks ≡ true)
          ⊎ ((leader : Address) × IsLeader
                (validators_for_height block.content.header.height)
                block.content.header.height
                leader
              × (signer block.signature (block_hash block) ≡ some leader)
              × ValidBlock merge verify txn_hash depth block.content node_mode store tree))
  unfolding validate_block
  validate_block_iff depth bad_blocks node_mode store tree block = ground (
    arith,
    get_leader_for_block_height_iff validators_for_height block.content.header.height,
    validate_iff merge verify txn_hash depth block.content node_mode store tree,
  )
