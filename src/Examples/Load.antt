-- ===== src/Examples/Load.antt =====
-- A start of a node of pkg/node that had crashed between the block store and the tree.
use tempo_zk_rollup.Base.{ltb→lt, ◌^◌, ◌≡◌, refl, [], none, some}
use tempo_zk_rollup.Smirk.Tree.{Tree, root_hash}
use tempo_zk_rollup.BlockStore.Bytes.{to_be_bytes, from_be}
use tempo_zk_rollup.BlockStore.Keys
use tempo_zk_rollup.BlockStore.Keys.{serialize_to}
use tempo_zk_rollup.BlockStore.Store.{get, get_max_height, set_entries, puts}
use tempo_zk_rollup.Doomslug.Approval.{BlockHeight}
use tempo_zk_rollup.Node.Utxo.{validator}
use tempo_zk_rollup.Node.Validate.{Block}
use tempo_zk_rollup.Node.Formats.{v1, v2, txns}
use tempo_zk_rollup.Node.State.{StoredFormat, block_format_ops}
use tempo_zk_rollup.Node.Load.{loaded, load_db_and_smirk, load_db_and_smirk-recovers}
use tempo_zk_rollup.Examples.Smirk.{pair, tree_1, tree_1-IsValid}
use tempo_zk_rollup.Examples.Node.{
  verify, txn_hash, store, content, block, tree_2, validate_content, apply_txn,
}
use tempo_zk_rollup.Examples.SortedStore.{Sorted, sorted_db, empty_db}
use tempo_zk_rollup.Examples.Encoding.{example_codec}
use tempo_zk_rollup.Examples.Proposals.{config, nine}

abbrev previous_block : Block
previous_block = record {
  content = record {
    header = record content.header { height = 8 };
    state = record { root_hash = root_hash pair tree_1; txns = [] };
  };
  signature = 4;
}

abbrev previous : StoredFormat
previous = (v1 previous_block, ltb→lt 8 (2 ^ 64) refl)

abbrev last_block : StoredFormat
last_block = (v2 block (record { timestamp_unix_s = some 1000 }), ltb→lt 9 (2 ^ 64) refl)

abbrev crashed : Sorted
crashed =
    sorted_db.write
      (sorted_db.write empty_db (
        puts (block_format_ops example_codec)
          (set_entries (block_format_ops example_codec) previous none)))
      (puts (block_format_ops example_codec)
        (set_entries (block_format_ops example_codec) last_block (some 8)))

crashed_max : get_max_height sorted_db crashed ≡ Keys.ok (some 9)
unfolding get_max_height serialize_to to_be_bytes txns from_be
crashed_max = refl

crashed_block : get (block_format_ops example_codec) sorted_db crashed 9 ≡ Keys.ok (some last_block)
unfolding get serialize_to to_be_bytes txns
crashed_block = refl

crashed_at_8 : get (block_format_ops example_codec) sorted_db crashed 8 ≡ Keys.ok (some previous)
unfolding get serialize_to to_be_bytes txns
crashed_at_8 = refl

load_db_and_smirk-recovers_example :
    (t : Tree BlockHeight) × (load_db_and_smirk sorted_db example_codec pair config crashed tree_1
      ≡ loaded t block)
    × (root_hash pair t ≡ content.state.root_hash)
load_db_and_smirk-recovers_example =
    load_db_and_smirk-recovers sorted_db example_codec pair config verify txn_hash crashed tree_1
      tree_2 8 last_block previous validator store nine crashed_max crashed_block crashed_at_8 refl
      tree_1-IsValid refl validate_content apply_txn
