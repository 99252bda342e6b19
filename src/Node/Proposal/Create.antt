-- ===== src/Node/Proposal/Create.antt =====
-- `create_proposal` of pkg/node/src/node/proposal.rs. The Ethereum client, the validators of a
-- height, the signatures, the hashes and the proof verifier are arguments.
use tempo_zk_rollup.Base.{ℕ, ◌^◌, ◌<◌, Bool, List, [], ◌∷◌, Option, none, some, map}
use tempo_zk_rollup.Base.HashMap.{nat_eq}
use tempo_zk_rollup.Smirk.Bits.{Element}
use tempo_zk_rollup.Doomslug.Approval.{BlockHeight, CryptoHash, Address}
use tempo_zk_rollup.BlockStore.Db.{RocksDb}
use tempo_zk_rollup.Node.Utxo.{UtxoProof, Error, Result, ok, err, panics, invalid_transaction}
use tempo_zk_rollup.Node.Validate.{Block, BlockContent}
use tempo_zk_rollup.Node.Leader.{validate_block}
use tempo_zk_rollup.Node.BlockCache.{insert, confirm}
use tempo_zk_rollup.Node.Mempool.{commit, lease_batch}
use tempo_zk_rollup.Node.State.{Config, NodeShared, Codec}
use tempo_zk_rollup.Node.Transaction.{Ethereum, validate_transaction}
use tempo_zk_rollup.Node.Proposal.{
  Outcome, committed, first_refused, refused_keys, commit_proposal, stored_roots, proposed_root,
}

-- What a proposer knows: `sign` is `to_block` of its peer, and `signer` is `Signature::verify`.
pub record Proposer : Type 0 where
  pub eth : Ethereum
  pub safe_eth_height_offset : ℕ
  pub verify : UtxoProof → Bool
  pub txn_hash : UtxoProof → CryptoHash
  pub block_hash : Block → CryptoHash
  pub sign : BlockContent → ℕ
  pub signer : ℕ → CryptoHash → Option Address
  pub validators_for_height : BlockHeight → List Address

module _ {D : Type 0} (db : RocksDb D) (codec : Codec) (merge : Element → Element → Element)
    (is_open : ℕ → Bool) (config : Config) (p : Proposer) where
  -- The block of a proposal.
  abbrev pub proposal : CryptoHash → BlockHeight → List ℕ → Element → List UtxoProof → Block
  proposal last_block_hash height approvals root txns =
      let content : BlockContent = record {
        header = record {
          height = height;
          last_block_hash = last_block_hash;
          epoch_id = 0;
          last_final_block_hash = last_block_hash;
          approvals = approvals;
        };
        state = record { root_hash = root; txns = txns };
      } in
      record { content = content; signature = p.sign content }

  -- The transactions of keys leave the mempool with errors.
  abbrev pub refuse : BlockHeight → List (CryptoHash × Error) → NodeShared D → NodeShared D × List ℕ
  refuse height keys s =
      let (mempool, waiting) = commit height keys s.mempool in
      (record s { mempool = mempool }, map (λ w. w.0) waiting)

  -- The end of a proposal that was committed locally.
  abbrev pub confirm_proposal :
      Block → (NodeShared D × List ℕ) × Outcome → (NodeShared D × List ℕ) × Result Block
  confirm_proposal block ((s, sent), committed) = (
    (
      record s {
        block_cache = confirm block.content.header.height (insert p.block_hash block s.block_cache);
      },
      sent,
    ),
    ok block,
  )
  confirm_proposal block ((s, sent), Outcome.failed e) = ((s, sent), err e)
  confirm_proposal block ((s, sent), Outcome.panicked) = ((s, sent), panics)

  -- What `create_proposal` does with its block, by the answer of `validate_block`.
  abbrev pub after_validation :
      ℕ
      → (block : Block) → block.content.header.height < 2 ^ 64
      → NodeShared D
      → Result (Unit {0})
      → (NodeShared D × List ℕ) × Result Block
  after_validation now block u s (ok t) =
      confirm_proposal block
        (commit_proposal db codec merge p.txn_hash is_open config now block u s)
  after_validation now block u s (err e) = (
    refuse block.content.header.height (refused_keys e (map p.txn_hash block.content.state.txns)) s,
    err e,
  )
  after_validation now block u s panics = ((s, []), panics)

  -- The answer of `validate_block` in a state.
  abbrev pub validation : NodeShared D → Block → Result (Unit {0})
  validation s block =
      validate_block merge p.verify p.txn_hash p.signer p.block_hash p.validators_for_height
        config.tree_depth config.bad_blocks config.mode
        (stored_roots db codec merge p.txn_hash is_open s.block_store) s.notes_tree block

  -- The check of a transaction in a state.
  abbrev pub check_txn : NodeShared D → UtxoProof → Result (Unit {0})
  check_txn s x =
      validate_transaction p.verify p.txn_hash p.eth p.safe_eth_height_offset config.mode x
        s.block_cache.height (stored_roots db codec merge p.txn_hash is_open s.block_store)
        s.notes_tree

  -- The block of the batch with the new root, where the tree gives one.
  abbrev pub after_root :
      ℕ
      → CryptoHash
      → (height : BlockHeight) → height < 2 ^ 64
      → List ℕ
      → List UtxoProof
      → NodeShared D
      → Option Element
      → (NodeShared D × List ℕ) × Result Block
  after_root now last_block_hash height u accepts txns s none = ((s, []), panics)
  after_root now last_block_hash height u accepts txns s (some root) =
      let block = proposal last_block_hash height accepts root txns in
      after_validation now block u s (validation s block)

  -- What follows the checks of the transactions: the first that is refused leaves the mempool.
  abbrev pub after_checks :
      ℕ
      → CryptoHash
      → (height : BlockHeight) → height < 2 ^ 64
      → List ℕ
      → List UtxoProof
      → NodeShared D
      → Result (Option (UtxoProof × Error))
      → (NodeShared D × List ℕ) × Result Block
  after_checks now last_block_hash height u accepts txns s panics = ((s, []), panics)
  after_checks now last_block_hash height u accepts txns s (err e) = ((s, []), err e)
  after_checks now last_block_hash height u accepts txns s (ok (some (x, e))) =
      (refuse height ((p.txn_hash x, e) ∷ []) s, err (invalid_transaction (p.txn_hash x)))
  after_checks now last_block_hash height u accepts txns s (ok none) =
      after_root now last_block_hash height u accepts txns s
        (proposed_root db codec merge p.txn_hash is_open config.tree_depth s.notes_tree txns)

  -- `create_proposal` from the batch on.
  unfoldable pub propose_batch :
      ℕ
      → CryptoHash
      → (height : BlockHeight) → height < 2 ^ 64
      → List ℕ
      → List (CryptoHash × UtxoProof)
      → NodeShared D
      → (NodeShared D × List ℕ) × Result Block
  unfolding validate_transaction proposed_root validate_block commit_proposal
  propose_batch now last_block_hash height u accepts utxos s =
      after_checks now last_block_hash height u accepts (map (λ x. x.1) utxos) s
        (first_refused (check_txn s) utxos)

  -- `create_proposal`.
  unfoldable pub create_proposal :
      ℕ
      → CryptoHash
      → (height : BlockHeight) → height < 2 ^ 64
      → List ℕ
      → NodeShared D
      → (NodeShared D × List ℕ) × Result Block
  unfolding propose_batch lease_batch
  create_proposal now last_block_hash height u accepts s =
      elim (lease_batch height config.block_txns_count s.mempool) [
        | none ↦ ((s, []), panics)
        | some (mempool, utxos) ↦
            propose_batch now last_block_hash height u accepts utxos
              (record s { mempool = mempool })
      ]
