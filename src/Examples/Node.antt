-- ===== src/Examples/Node.antt =====
-- Runs of pkg/node at concrete inputs: a block with one transaction, on the tree of the examples
-- of pkg/smirk.
use tempo_zk_rollup.Base.{
  ℕ, ◌+◌, ◌≡◌, ◌≢◌, refl, ◌↔◌, Bool, true, false, ◌||◌, List, [], ◌∷◌, All, any, ◌==◌, arith,
}
use tempo_zk_rollup.Base.{◌⊎◌, if◌then◌else◌, Option, none, some}
use tempo_zk_rollup.Node.Validate.{Block}
use tempo_zk_rollup.Doomslug.Approval.{Address}
use tempo_zk_rollup.Node.Leader.{validate_block, IsLeader, validate_block_iff}
use tempo_zk_rollup.Smirk.Bits.{Element, lsb}
use tempo_zk_rollup.Smirk.Batch.{Batch, find_element_with_lsb, from_entries, insert_all}
use tempo_zk_rollup.Smirk.Batch
use tempo_zk_rollup.Smirk.Sort.{sort_by_bits}
use tempo_zk_rollup.Smirk.Recalculate.{recalculate_hashes}
use tempo_zk_rollup.Smirk.HashWith.{
  hash_with, hash_with_inner, hash_sides, hash_empty, side_hash, first_or_null,
}
use tempo_zk_rollup.Smirk.Hash.{empty_tree_hash}
use tempo_zk_rollup.Smirk.Node.{
  insert_without_hashing, rights_start, insert_leaf, insert_first, hash, insert_sides,
  insert_parent, insert_empty,
}
use tempo_zk_rollup.Smirk.Tree.{
  Tree, insert_batch, root_hash, contains_element, check_collisions, check_keys, raw_insert,
  record_entries, rehash,
}
use tempo_zk_rollup.Smirk.Tree
use tempo_zk_rollup.Smirk.Tree.Valid.{IsValid}
use tempo_zk_rollup.Doomslug.Approval.{BlockHeight, CryptoHash}
use tempo_zk_rollup.Node.Utxo.{
  UtxoProof, Mode, validator, validate_txn, validate_txn_iff, input_list, output_list, IsFresh,
  IsRecent, check_leaves, check_recent_root,
}
use tempo_zk_rollup.Node.Utxo
use tempo_zk_rollup.Node.Validate.{
  BlockContent, block_leaves, non_null, validate, validate_txns, new_root_hash, collect_leaves,
}
use tempo_zk_rollup.Node.ValidBlock.{ValidBlock}
use tempo_zk_rollup.Node.ValidBlock.Iff.{validate_iff}
use tempo_zk_rollup.Node.Apply.{apply_block_to_tree, persistent_insert_batch}
use tempo_zk_rollup.Node.Ledger.{
  apply_block_to_tree-keys, apply_block_to_tree-root, apply_block_to_tree-spent,
}
use tempo_zk_rollup.Examples.Smirk.{pair, tree_1, tree_1-IsValid}

-- The verifier takes a proof that starts with 1.
abbrev pub verify : UtxoProof → Bool
verify u = elim u.proof [ [] ↦ false | b ∷ bs ↦ b == 1 ]

abbrev pub txn_hash : UtxoProof → CryptoHash
txn_hash u = u.input_leaves.0 + u.output_leaves.0

abbrev pub txn : UtxoProof
txn = record {
  recent_root = 33;
  mb_hash = 0;
  mb_value = 0;
  input_leaves = (4, 0);
  output_leaves = (7, 0);
  proof = 1 ∷ [];
}

abbrev pub store : List (BlockHeight × Element)
store = (3, 22) ∷ (8, 33) ∷ []

abbrev pub batch : Batch ℕ
batch = record { entries = (4, 9) ∷ (7, 9) ∷ []; lsbs = lsb 4 2 ∷ lsb 7 2 ∷ [] }

abbrev pub tree_2 : Tree ℕ
tree_2 = (insert_batch pair 3 tree_1 batch).0.0

abbrev pub content : BlockContent
content = record {
  header = record {
    height = 9;
    last_block_hash = 1;
    epoch_id = 0;
    last_final_block_hash = 1;
    approvals = [];
  };
  state = record { root_hash = root_hash pair tree_2; txns = txn ∷ [] };
}

pub apply_txn : apply_block_to_tree pair 3 tree_1 content.state 9 false ≡ Batch.ok tree_2
unfolding apply_block_to_tree persistent_insert_batch from_entries insert_all Batch.insert
    insert_batch check_collisions check_keys raw_insert record_entries rehash lsb
    find_element_with_lsb sort_by_bits insert_without_hashing recalculate_hashes rights_start
    insert_leaf insert_first hash Tree.new insert_empty insert_parent insert_sides
apply_txn = refl

pub validate_content : validate pair verify txn_hash 3 content validator store tree_1 ≡ Utxo.ok tt
unfolding validate validate_txns new_root_hash collect_leaves validate_txn check_leaves
    check_recent_root insert_batch check_collisions check_keys raw_insert record_entries rehash lsb
    find_element_with_lsb sort_by_bits insert_without_hashing recalculate_hashes rights_start
    insert_leaf insert_first hash Tree.new insert_empty insert_parent insert_sides hash_with
    hash_with_inner hash_sides hash_empty side_hash first_or_null empty_tree_hash
validate_content = refl

validate_txn_iff_example :
    (validate_txn verify txn_hash validator txn 9 store tree_1 ≡ Utxo.ok tt) ↔ (
      (verify txn ≡ true)
      × IsRecent validator txn 9 store
      × All (IsFresh tree_1) (input_list txn)
      × All (IsFresh tree_1) (output_list txn))
validate_txn_iff_example = validate_txn_iff verify txn_hash validator txn 9 store tree_1

validate_iff_example :
    (validate pair verify txn_hash 3 content validator store tree_1 ≡ Utxo.ok tt)
    ↔ ValidBlock pair verify txn_hash 3 content validator store tree_1
validate_iff_example = validate_iff pair verify txn_hash 3 content validator store tree_1

apply_block_to_tree-keys_example :
    IsValid pair 3 tree_2
    × ((e : Element)
        → contains_element tree_2 e ≡ (
            any (λ x. x == e) (non_null (block_leaves content.state.txns))
            || contains_element tree_1 e))
apply_block_to_tree-keys_example =
    apply_block_to_tree-keys pair 3 tree_1 tree_2 content.state 9 tree_1-IsValid apply_txn

apply_block_to_tree-root_example : root_hash pair tree_2 ≡ content.state.root_hash
apply_block_to_tree-root_example =
    apply_block_to_tree-root pair verify txn_hash 3 tree_1 tree_2 content validator store 9
      tree_1-IsValid validate_content apply_txn

apply_block_to_tree-spent_example :
    validate_txn verify txn_hash validator txn 10 store tree_2 ≢ Utxo.ok tt
apply_block_to_tree-spent_example =
    apply_block_to_tree-spent pair verify txn_hash 3 tree_1 tree_2 content.state 9 4 txn validator
      10 store tree_1-IsValid apply_txn refl (omega arith) refl

abbrev pub signer : ℕ → CryptoHash → Option Address
signer s h = if s == 0 then none else some s

abbrev pub block_hash : Block → CryptoHash
block_hash b = b.content.header.height + 700

abbrev pub validators_for_height : BlockHeight → List Address
validators_for_height h = 4 ∷ 5 ∷ []

abbrev pub block : Block
block = record { content = content; signature = 5 }

validate_block_iff_example :
    (validate_block pair verify txn_hash signer block_hash validators_for_height 3
        (1 ∷ [])
        validator
        store
        tree_1
        block
      ≡ Utxo.ok tt)
    ↔ ((any (λ h. h == block.content.header.height) (1 ∷ []) ≡ true)
        ⊎ ((leader : Address) × IsLeader
              (validators_for_height block.content.header.height)
              block.content.header.height
              leader
            × (signer block.signature (block_hash block) ≡ some leader)
            × ValidBlock pair verify txn_hash 3 block.content validator store tree_1))
validate_block_iff_example =
    validate_block_iff pair verify txn_hash signer block_hash validators_for_height 3 (1 ∷ [])
      validator store tree_1 block
