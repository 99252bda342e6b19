-- ===== src/Examples/Proposals.antt =====
-- Runs of the proposals and the synchronisation of pkg/node.
use tempo_zk_rollup.Base.{
  ℕ, ◌^◌, ◌<◌, ◌≡◌, refl, ◌↔◌, Bool, true, false, [], ◌∷◌, All, none, some, ◌==◌, arith,
}
use tempo_zk_rollup.Base.HashMap.{nat_eq}
use tempo_zk_rollup.Smirk.Bits.{Element}
use tempo_zk_rollup.Doomslug.Approval.{BlockHeight, CryptoHash}
use tempo_zk_rollup.BlockStore.Store.{
  get, get_max_height, get_block_height_by_hash, get_txn_by_hash,
}
use tempo_zk_rollup.BlockStore.View.{View, Shows}
use tempo_zk_rollup.Node.Utxo.{
  UtxoProof, validator, node, input_list, output_list, IsFresh, IsRecent,
}
use tempo_zk_rollup.Node.Utxo
use tempo_zk_rollup.Node.Mempool.{MempoolState}
use tempo_zk_rollup.Node.BlockCache.{BlockCache}
use tempo_zk_rollup.Node.State.{Config, NodeShared, block_format_ops}
use tempo_zk_rollup.Node.Proposal.{commit_proposal}
use tempo_zk_rollup.Node.Proposal.Committed.{CommitEnd, commit_proposal-CommitEnd}
use tempo_zk_rollup.Node.Transaction.{
  Ethereum, validate_transaction, IsConfirmed, validate_transaction_iff,
}
use tempo_zk_rollup.Examples.Smirk.{pair, tree_1, tree_1-IsValid}
use tempo_zk_rollup.Examples.Node.{verify, txn_hash, txn, store, block, validate_content}
use tempo_zk_rollup.Examples.SortedStore.{Sorted, sorted_db, empty_db}
use tempo_zk_rollup.Examples.Encoding.{example_codec}

abbrev pub config : Config
config = record { mode = validator; bad_blocks = []; block_txns_count = 10; tree_depth = 3 }

abbrev pub is_open : ℕ → Bool
is_open listener = listener == 5

abbrev pub mempool : MempoolState CryptoHash UtxoProof BlockHeight Element
mempool = record {
  txns = (11, record { txn = txn; sender = some 3; changes = 4 ∷ 0 ∷ 7 ∷ 0 ∷ [] }) ∷ [];
  pool = 11 ∷ [];
  leased = [];
}

abbrev pub cache : BlockCache
cache = record {
  height = 8;
  max_height = 8;
  blocks = [];
  block_hash_heights = [];
  max_cache_size = 10;
}

abbrev pub state : NodeShared Sorted
state = record {
  last_commit = none;
  listeners = 5 ∷ 6 ∷ [];
  block_store = empty_db;
  notes_tree = tree_1;
  mempool = mempool;
  block_cache = cache;
}

abbrev pub no_view : View (block_format_ops example_codec)
no_view = record {
  block_at = λ h. none;
  max_at = none;
  height_of = λ hash. none;
  txn_of = λ hash. none;
}

pub no_view-Shows : Shows (block_format_ops example_codec) sorted_db empty_db no_view
unfolding get_max_height get_block_height_by_hash get_txn_by_hash get
no_view-Shows = record {
  block_at_lem = λ h l. refl;
  max_at_lem = refl;
  height_of_lem = λ hash l. refl;
  txn_of_lem = λ hash l. refl;
}

pub nine : 9 < 2 ^ 64
nine = omega arith

commit_proposal-CommitEnd_example :
    CommitEnd sorted_db example_codec pair verify txn_hash is_open config 1000 block nine state
      no_view
      (commit_proposal sorted_db example_codec pair txn_hash is_open config 1000 block nine state)
commit_proposal-CommitEnd_example =
    commit_proposal-CommitEnd sorted_db example_codec pair verify txn_hash is_open config 1000 block
      nine state no_view validator store tree_1-IsValid validate_content refl no_view-Shows

abbrev pub ethereum : Ethereum
ethereum = record {
  block_number = some 100;
  get_mint = λ h key. some (key == 7);
  has_burn = λ h key. some false;
}

-- A mint of the note 7.
abbrev pub mint_txn : UtxoProof
mint_txn = record {
  recent_root = 0;
  mb_hash = 7;
  mb_value = 20;
  input_leaves = (0, 0);
  output_leaves = (7, 0);
  proof = 1 ∷ [];
}

validate_transaction_iff_example :
    (validate_transaction verify txn_hash ethereum 64 validator mint_txn 9 store tree_1
      ≡ Utxo.ok tt)
    ↔ (IsConfirmed ethereum 64 mint_txn
        × (verify mint_txn ≡ true)
        × IsRecent validator mint_txn 9 store
        × All (IsFresh tree_1) (input_list mint_txn)
        × All (IsFresh tree_1) (output_list mint_txn))
validate_transaction_iff_example =
    validate_transaction_iff verify txn_hash ethereum 64 validator mint_txn 9 store tree_1
