-- ===== src/Examples/Create.antt =====
-- A run of `create_proposal` of pkg/node, with a mint in the mempool.
use tempo_zk_rollup.Base.{[], ◌∷◌, none}
use tempo_zk_rollup.Base.HashMap.{nat_eq}
use tempo_zk_rollup.Smirk.Batch
use tempo_zk_rollup.Smirk.Tree
use tempo_zk_rollup.Node.Formats.{txns}
use tempo_zk_rollup.Node.Utxo.{Result, ok}
use tempo_zk_rollup.Node.Utxo
use tempo_zk_rollup.Node.Validate.{Block}
use tempo_zk_rollup.Node.State.{NodeShared}
use tempo_zk_rollup.Node.Proposal.Create.{Proposer, create_proposal}
use tempo_zk_rollup.Examples.Smirk.{pair}
use tempo_zk_rollup.Examples.Node.{
  verify, txn_hash, block, block_hash, signer, validators_for_height,
}
use tempo_zk_rollup.Examples.SortedStore.{Sorted, sorted_db}
use tempo_zk_rollup.Examples.Encoding.{example_codec}
use tempo_zk_rollup.Examples.Proposals.{config, is_open, state, nine, ethereum, mint_txn}

abbrev proposer : Proposer
proposer = record {
  eth = ethereum;
  safe_eth_height_offset = 64;
  verify = verify;
  txn_hash = txn_hash;
  block_hash = block_hash;
  sign = λ c. 5;
  signer = signer;
  validators_for_height = validators_for_height;
}

abbrev mint_state : NodeShared Sorted
mint_state = record state {
  mempool = record {
    txns = (7, record { txn = mint_txn; sender = none; changes = 0 ∷ 0 ∷ 7 ∷ 0 ∷ [] }) ∷ [];
    pool = 7 ∷ [];
    leased = [];
  };
}

abbrev block_of : Result Block → Block
block_of (ok b) = b
block_of (Utxo.err e) = block
block_of Utxo.panics = block

abbrev created : Result Block
created =
    (create_proposal sorted_db example_codec pair is_open config proposer 1000 1 9 nine []
      mint_state).1
