-- ===== src/Examples/Sync.antt =====
-- Runs of `create_proposal`, of a fast snapshot chunk and of an upgrade in pkg/node.
use tempo_zk_rollup.Base.{◌≡◌, refl, List, [], ◌∷◌, Option, none, some, arith}
use tempo_zk_rollup.Base.HashMap.{nat_eq}
use tempo_zk_rollup.Smirk.Bits.{Element, lsb}
use tempo_zk_rollup.Smirk.Batch.{find_element_with_lsb, from_entries, insert_all}
use tempo_zk_rollup.Smirk.Batch
use tempo_zk_rollup.Smirk.Sort.{sort_by_bits}
use tempo_zk_rollup.Smirk.Recalculate.{recalculate_hashes}
use tempo_zk_rollup.Smirk.HashWith.{
  hash_with, hash_with_inner, hash_sides, hash_empty, side_hash, first_or_null,
}
use tempo_zk_rollup.Smirk.Hash.{empty_tree_hash}
use tempo_zk_rollup.Smirk.Node.{
  insert_without_hashing, rights_start, insert_leaf, insert_first, hash, insert_sides,
  insert_parent, insert_empty,
}
use tempo_zk_rollup.Smirk.Tree.{
  Tree, insert_batch, root_hash, root_hash_with, contains_element, check_collisions, check_keys,
  raw_insert, record_entries, rehash,
}
use tempo_zk_rollup.Smirk.Tree
use tempo_zk_rollup.WireMessage.{WireResult, upgrade, IsUpgraded, upgrade_lem}
use tempo_zk_rollup.Node.Utxo.{node}
use tempo_zk_rollup.Node.Validate.{Block}
use tempo_zk_rollup.Node.Mempool.{lease_txns}
use tempo_zk_rollup.Node.Apply.{persistent_insert_batch}
use tempo_zk_rollup.Node.BlockCache.{confirm, insert, remove, remove_below, store_block}
use tempo_zk_rollup.Node.Formats.{BlockFormat, v1}
use tempo_zk_rollup.Node.Formats.Upgrade.{block_format_message}
use tempo_zk_rollup.Node.State.{Config, NodeShared}
use tempo_zk_rollup.Node.Sync.Chunks.{FastResult, handled, handle_snapshot_chunk_fast, new_elements}
use tempo_zk_rollup.Node.Sync.Chunks
use tempo_zk_rollup.Node.Sync.Fast.{FastEnd, handle_snapshot_chunk_fast-FastEnd}
use tempo_zk_rollup.Node.Proposal.{receive_proposal}
use tempo_zk_rollup.Examples.Smirk.{pair, tree_1, tree_1-IsValid}
use tempo_zk_rollup.Examples.Node.{txn, txn_hash, block, block_hash}
use tempo_zk_rollup.Examples.SortedStore.{Sorted, sorted_db}
use tempo_zk_rollup.Examples.Encoding.{example_codec}
use tempo_zk_rollup.Examples.Proposals.{is_open, state}

upgrade_lem_example :
    (r : Unit {0} × WireResult (Unit {0}) BlockFormat) × (upgrade
        (block_format_message {Err = Unit {0}})
        2
        tt
        (v1 block)
      ≡ some r)
    × IsUpgraded (block_format_message {Err = Unit {0}}) r.1
upgrade_lem_example =
    upgrade_lem (block_format_message {Err = Unit {0}}) 2 tt (v1 block) (omega arith)

abbrev node_config : Config
node_config = record { mode = node; bad_blocks = []; block_txns_count = 10; tree_depth = 3 }

-- The elements of a chunk for a block with the leaf 4: that leaf, one that the tree has, and one
-- that is new.
abbrev elements : List Element
elements = 4 ∷ 1 ∷ 7 ∷ []

abbrev root_of : Option Element → Element
root_of none = 0
root_of (some r) = r

abbrev fast_block : Block
fast_block = record {
  content = record {
    header = block.content.header;
    state = record {
      root_hash = root_of (root_hash_with pair 3 tree_1 (4 ∷ 7 ∷ []));
      txns = record txn { output_leaves = (0, 0) } ∷ [];
    };
  };
  signature = 5;
}

abbrev handled_state : FastResult Sorted → NodeShared Sorted
handled_state (handled s) = s
handled_state (Chunks.collision_error s) = s
handled_state (Chunks.panics s) = s

abbrev fast_result : FastResult Sorted
fast_result =
    handle_snapshot_chunk_fast sorted_db example_codec pair txn_hash is_open block_hash node_config
      (some fast_block) elements state

fast_handled : fast_result ≡ handled (handled_state fast_result)
unfolding handle_snapshot_chunk_fast receive_proposal hash_with hash_with_inner insert_batch
    check_collisions Tree.new raw_insert insert_without_hashing insert_empty insert_parent
    rights_start sort_by_bits lsb insert_sides insert_first recalculate_hashes hash_sides side_hash
    persistent_insert_batch confirm insert remove remove_below store_block lease_txns
    find_element_with_lsb from_entries Batch.insert insert_all empty_tree_hash first_or_null
    hash_empty hash insert_leaf check_keys record_entries rehash
fast_handled = refl

handle_snapshot_chunk_fast-FastEnd_example :
    FastEnd sorted_db example_codec pair txn_hash is_open block_hash node_config fast_block elements
      state
      (handled_state fast_result)
handle_snapshot_chunk_fast-FastEnd_example =
    handle_snapshot_chunk_fast-FastEnd sorted_db example_codec pair txn_hash is_open block_hash
      node_config fast_block elements state (handled_state fast_result) tree_1-IsValid
      (omega arith, (omega arith, (omega arith, tt))) fast_handled
