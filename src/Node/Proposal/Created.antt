-- ===== src/Node/Proposal/Created.antt =====
-- What a proposal of its own is to a node: `create_proposal` of pkg/node/src/node/proposal.rs.
use tempo_zk_rollup.Base.{
  ℕ, ◌^◌, ◌<◌, ◌≡◌, Bool, true, false, List, none, some, map, any, All, ◌==◌,
}
use tempo_zk_rollup.Base.TreeMap
use tempo_zk_rollup.Base.HashMap
use tempo_zk_rollup.Base.HashMap.{nat_eq}
use tempo_zk_rollup.Smirk.Bits.{Element}
use tempo_zk_rollup.Smirk.Tree.{root_hash}
use tempo_zk_rollup.Smirk.Tree.Valid.{IsValid}
use tempo_zk_rollup.Doomslug.Approval.{Address, BlockHeight, CryptoHash}
use tempo_zk_rollup.BlockStore.Db.{RocksDb}
use tempo_zk_rollup.BlockStore.View.{View, Shows, view_set}
use tempo_zk_rollup.Node.Utxo.{UtxoProof, ok}
use tempo_zk_rollup.Node.Validate.{Block}
use tempo_zk_rollup.Node.ValidBlock.{ValidBlock}
use tempo_zk_rollup.Node.Leader.{IsLeader}
use tempo_zk_rollup.Node.Mempool.{member}
use tempo_zk_rollup.Node.BlockCache.{height_of}
use tempo_zk_rollup.Node.State.{Config, NodeShared, Codec, block_format_ops}
use tempo_zk_rollup.Node.Transaction.{validate_transaction}
use tempo_zk_rollup.Node.Proposal.{stored_roots, stored_block}
use tempo_zk_rollup.Node.Proposal.Create.{check_txn, Proposer, proposal}

module _ {D : Type 0} (db : RocksDb D) (codec : Codec) (merge : Element → Element → Element)
    (is_open : ℕ → Bool) (config : Config) (p : Proposer) where
  -- A block with the transactions of a batch that is valid in the state `s`, and the state `s'` in
  -- which it is committed.
  pub record Proposed (now : ℕ) (height : BlockHeight) (last_block_hash : CryptoHash)
      (accepts : List ℕ) (utxos : List (CryptoHash × UtxoProof)) (s : NodeShared D)
      (v : View (block_format_ops codec)) (s' : NodeShared D) (b : Block) : Type 0 where
    pub height_lem : b.content.header.height ≡ height
    pub txns_lem : b.content.state.txns ≡ map (λ x. x.1) utxos
    pub last_block_lem : b.content.header.last_block_hash ≡ last_block_hash
    pub accepts_lem : b.content.header.approvals ≡ accepts
    pub leader : Address
    pub leads : IsLeader (p.validators_for_height height) height leader
    pub signed : p.signer b.signature (p.block_hash b) ≡ some leader
    pub txns_valid :
        All
          (λ u.
            validate_transaction p.verify p.txn_hash p.eth p.safe_eth_height_offset config.mode u
              s.block_cache.height
              (stored_roots db codec merge p.txn_hash is_open s.block_store)
              s.notes_tree
            ≡ ok tt)
          b.content.state.txns
    pub block_valid :
        ValidBlock merge p.verify p.txn_hash config.tree_depth b.content config.mode
          (stored_roots db codec merge p.txn_hash is_open s.block_store)
          s.notes_tree
    pub height_u64 : height_of b < 2 ^ 64
    pub stored : Shows (block_format_ops codec) db s'.block_store (
        view_set
          (block_format_ops codec)
          v
          (stored_block db codec merge p.txn_hash is_open now b height_u64))
    pub tree_valid : IsValid merge config.tree_depth s'.notes_tree
    pub root : root_hash merge s'.notes_tree ≡ b.content.state.root_hash
    pub gone :
        (k : CryptoHash)
        → member k (map p.txn_hash b.content.state.txns) ≡ true
        → HashMap.lookup k s'.mempool.txns ≡ none
    pub cache_height : s'.block_cache.height ≡ height
    pub cache_below :
        (h : BlockHeight)
        → h < height
        → TreeMap.contains_key h s'.block_cache.block_hash_heights ≡ false

  module _ (now : ℕ) (last_block_hash : CryptoHash) (height : BlockHeight) (u : height < 2 ^ 64)
      (accepts : List ℕ) (utxos : List (CryptoHash × UtxoProof)) (s : NodeShared D)
      (v : View (block_format_ops codec)) (b : Block)
      (good : any (λ h. h == height) config.bad_blocks ≡ false)
      (valid : IsValid merge config.tree_depth s.notes_tree)
      (shows : Shows (block_format_ops codec) db s.block_store v)
      (checked : All
        (λ x. check_txn db codec merge is_open config p s x ≡ ok tt)
        (map (λ x. x.1) utxos)) where
    module _ (root : Element) where
      abbrev the_block : Block
      the_block =
          proposal db codec merge is_open config p last_block_hash height accepts root
            (map (λ x. x.1) utxos)
