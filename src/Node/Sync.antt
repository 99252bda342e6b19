-- ===== src/Node/Sync.antt =====
-- Synchronisation: pkg/node/src/sync.rs, less the clock and the network. A channel is the list of
-- its messages, and it is closed at the end of the list.
pub mod Chunks
pub mod Elements
pub mod Fast
use tempo_zk_rollup.Base.{
  ℕ, ◌+◌, ◌-◌, ◌*◌, ◌%◌, ◌^◌, ◌≡◌, Bool, true, false, not, ◌&&◌, ◌||◌, List, [], ◌∷◌, Option, none,
  some, min, map, any, filter, ◌++◌, ltb, leb, ◌==◌, if◌then◌else◌,
}
use tempo_zk_rollup.Smirk.Bits.{Element}
use tempo_zk_rollup.Doomslug.Approval.{BlockHeight, CryptoHash}
use tempo_zk_rollup.Node.Utxo.{Mode, is_prover}
use tempo_zk_rollup.Node.Validate.{Block}
use tempo_zk_rollup.Node.BlockCache.{BlockCache, is_out_of_sync}

pub data SnapshotKind : Type 0 where
  slow : SnapshotKind
  fast : SnapshotKind

-- `SnapshotRequest` and `SnapshotAccept`.
pub record SnapshotRequest : Type 0 where
  pub snapshot_id : ℕ
  pub from_height : BlockHeight
  pub to_height : BlockHeight
  pub kind : SnapshotKind

-- `SnapshotChunk`.
pub data SnapshotChunk : Type 0 where
  slow_chunk : ℕ → List Block → SnapshotChunk
  fast_chunk : ℕ → Option Block → List Element → SnapshotChunk

-- `SnapshotChunk::snapshot_id`.
abbrev pub snapshot_id_of : SnapshotChunk → ℕ
snapshot_id_of (slow_chunk id chunk) = id
snapshot_id_of (fast_chunk id block elements) = id

-- `Message`, with the numbers of the peers.
pub data Message : Type 0 where
  out_of_sync : BlockHeight → Message
  snapshot_offer : ℕ → ℕ → Message
  snapshot_chunk : ℕ → SnapshotChunk → Message

-- `wait_for_out_of_sync`: the height of the first such message, and the messages behind it.
unfoldable pub wait_for_out_of_sync : List Message → Option (BlockHeight × List Message)
wait_for_out_of_sync [] = none
wait_for_out_of_sync (out_of_sync h ∷ ms) = some (h, ms)
wait_for_out_of_sync (snapshot_offer peer id ∷ ms) = wait_for_out_of_sync ms
wait_for_out_of_sync (snapshot_chunk peer chunk ∷ ms) = wait_for_out_of_sync ms

-- `wait_for_snapshot_offer`: the peer of the first offer of the snapshot.
unfoldable pub wait_for_snapshot_offer : ℕ → List Message → Option (ℕ × List Message)
wait_for_snapshot_offer id [] = none
wait_for_snapshot_offer id (out_of_sync h ∷ ms) = wait_for_snapshot_offer id ms
wait_for_snapshot_offer id (snapshot_offer peer offered ∷ ms) =
    let rest = wait_for_snapshot_offer id ms in if offered == id then some (peer, ms) else rest
wait_for_snapshot_offer id (snapshot_chunk peer chunk ∷ ms) = wait_for_snapshot_offer id ms

-- `wait_for_snapshot_chunk`: the first chunk of the snapshot from the peer.
unfoldable pub wait_for_snapshot_chunk :
    ℕ → ℕ → List Message → Option (SnapshotChunk × List Message)
wait_for_snapshot_chunk peer id [] = none
wait_for_snapshot_chunk peer id (out_of_sync h ∷ ms) = wait_for_snapshot_chunk peer id ms
wait_for_snapshot_chunk peer id (snapshot_offer from offered ∷ ms) =
    wait_for_snapshot_chunk peer id ms
wait_for_snapshot_chunk peer id (snapshot_chunk from chunk ∷ ms) =
    let rest = wait_for_snapshot_chunk peer id ms in
    if from == peer && snapshot_id_of chunk == id then some (chunk, ms) else rest

-- The settings of a `SyncWorker`.
pub record SyncConfig : Type 0 where
  pub chunk_size : ℕ
  pub fast_sync_threshold : ℕ
  pub node_mode : Mode

-- Whether the node is so far behind that it tries a fast snapshot; the subtraction wraps.
abbrev pub far_enough : SyncConfig → BlockHeight → BlockHeight → Bool
far_enough config max_seen_height height =
    ltb config.fast_sync_threshold ((max_seen_height + 2 ^ 64 - height) % 2 ^ 64)

-- The request of `handle_out_of_sync`, with the height of the contract unless it could not be had;
-- no request where the node is in sync, and `none` where the question panics.
unfoldable pub snapshot_request :
    SyncConfig → Option BlockHeight → BlockHeight → ℕ → BlockCache → Option (Option SnapshotRequest)
unfolding is_out_of_sync
snapshot_request config contract_height max_seen_height id cache =
    let from = cache.height + 1 in
    let to = from + config.chunk_size in
    let slow_request : SnapshotRequest = record {
      snapshot_id = id;
      from_height = from;
      to_height = to;
      kind = slow;
    } in
    let fast_request : Option BlockHeight → SnapshotRequest = elim [
      | none ↦ slow_request
      | some c ↦
          (if ltb to c
            then record { snapshot_id = id; from_height = from; to_height = c; kind = fast }
            else slow_request)
    ] in
    let asked =
      if is_prover config.node_mode && far_enough config max_seen_height cache.height
      then fast_request contract_height
      else slow_request in
    elim (is_out_of_sync cache) [
      | none ↦ none
      | some behind ↦ some (if behind then some asked else none)
    ]
