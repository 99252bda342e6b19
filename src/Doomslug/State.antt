-- ===== src/Doomslug/State.antt =====
-- `Doomslug` of pkg/doomslug/src/doomslug.rs: its state and its operations. Heights are numbers
-- that do not wrap; the answers of the clocks are arguments.
use tempo_zk_rollup.Base.{
  ℕ, ◌+◌, ◌-◌, ◌*◌, ◌/◌, ◌^◌, Bool, true, false, ◌&&◌, ◌||◌, List, [], ◌∷◌, ◌++◌, Option, none,
  some, length, drop, min, ltb, leb, if◌then◌else◌,
}
use tempo_zk_rollup.Base.HashMap
use tempo_zk_rollup.Base.HashMap.{nat_eq}
use tempo_zk_rollup.Doomslug.Approval.{
  Address, BlockHeight, CryptoHash, Instant, Duration, inner_eq, ApprovalContent, ApprovalValidated,
  ApprovalStake, ApprovalHistoryEntry, new_inner, new_content,
}
use tempo_zk_rollup.Doomslug.Tracker.{
  ThresholdMode, Readiness, not_ready, ready_since, get_block_production_readiness,
}
use tempo_zk_rollup.Doomslug.AtHeight.{AtHeight}
use tempo_zk_rollup.Doomslug.AtHeight

abbrev pub max_timer_iters : ℕ
max_timer_iters = 20

abbrev pub max_heights_ahead : BlockHeight
max_heights_ahead = 10000

abbrev pub max_heights_before : BlockHeight
max_heights_before = 20

abbrev pub max_history_size : ℕ
max_history_size = 1000

pub record Timer : Type 0 where
  pub started : Instant
  pub last_endorsement_sent : Instant
  pub height : BlockHeight
  pub endorsement_delay : Duration
  pub min_delay : Duration
  pub delay_step : Duration
  pub max_delay : Duration

pub record Tip : Type 0 where
  pub block_hash : CryptoHash
  pub height : BlockHeight

pub record Doomslug : Type 0 where
  pub approval_tracking : List (BlockHeight × AtHeight)
  pub largest_sent_target_height : BlockHeight
  pub largest_final_height : BlockHeight
  pub largest_threshold_approvals_height : BlockHeight
  pub largest_approval_target_height : BlockHeight
  pub tip : Tip
  pub endorsement_pending : Bool
  pub timer : Timer
  pub threshold_mode : ThresholdMode
  pub history : List ApprovalHistoryEntry

-- `Doomslug::new`; `now` is the answer of the two calls of `Instant::now`.
unfoldable pub new :
    BlockHeight → Duration → Duration → Duration → Duration → ThresholdMode → Instant → Doomslug
new largest_sent endorsement_delay min_delay delay_step max_delay mode now = record {
  approval_tracking = [];
  largest_sent_target_height = largest_sent;
  largest_final_height = 0;
  largest_threshold_approvals_height = 0;
  largest_approval_target_height = 0;
  tip = record { block_hash = 0; height = 0 };
  endorsement_pending = false;
  timer = record {
    started = now;
    last_endorsement_sent = now;
    height = 0;
    endorsement_delay = endorsement_delay;
    min_delay = min_delay;
    delay_step = delay_step;
    max_delay = max_delay;
  };
  threshold_mode = mode;
  history = [];
}

-- `u32::try_from(n).unwrap_or(u32::MAX)`.
abbrev pub clamp_u32 : ℕ → ℕ
clamp_u32 n = if ltb n (2 ^ 32) then n else 2 ^ 32 - 1

-- `DoomslugTimer::get_delay`; the native `-` saturates as `saturating_sub` does.
unfoldable pub get_delay : Timer → ℕ → Duration
get_delay t n = min t.max_delay (t.min_delay + t.delay_step * (clamp_u32 n - 2))

-- `update_history`: the loop takes entries off the front until there is room.
unfoldable pub update_history :
    List ApprovalHistoryEntry → ApprovalHistoryEntry → List ApprovalHistoryEntry
update_history history entry =
    (if leb max_history_size (length history)
      then drop (length history + 1 - max_history_size) history
      else history)
    ++ entry ∷ []

-- `create_approval`, which always gives one.
unfoldable pub create_approval : Doomslug → BlockHeight → ApprovalContent
create_approval d target_height = new_content d.tip.block_hash d.tip.height target_height

-- `on_block`.
unfoldable pub on_block : Doomslug → Instant → CryptoHash → BlockHeight → BlockHeight → Doomslug
on_block d now block_hash height last_final_height =
    let t = d.timer in
    record d {
      tip = record { block_hash = block_hash; height = height };
      largest_final_height = last_final_height;
      timer = record t { height = height + 1; started = now };
      approval_tracking =
          HashMap.retain
            (λ h. ltb (height - max_heights_before) h && leb h (height + max_heights_ahead))
            d.approval_tracking;
      endorsement_pending = true;
    }

abbrev pub at_height_or_new : List (BlockHeight × AtHeight) → BlockHeight → AtHeight
at_height_or_new m h = elim (HashMap.lookup h m) [ none ↦ AtHeight.new | some s ↦ s ]

abbrev pub is_ready : Readiness → Bool
is_ready not_ready = false
is_ready (ready_since t) = true

-- `on_approval_internal`; `none` is a panic.
unfoldable pub on_approval_internal :
    Doomslug
    → Instant
    → Instant
    → ApprovalValidated
    → List (ApprovalStake × Bool)
    → Option (Doomslug × Readiness)
on_approval_internal d now utc approval stakes =
    let target = approval.content.target_height in
    elim (AtHeight.process_approval (at_height_or_new d.approval_tracking target) now utc approval
      stakes d.threshold_mode) [
        | none ↦ none
        | some (s, r) ↦ some (
          record d {
            approval_tracking = HashMap.insert target s d.approval_tracking;
            largest_approval_target_height =
                if ltb d.largest_approval_target_height target
                then target
                else d.largest_approval_target_height;
            largest_threshold_approvals_height =
                if is_ready r && ltb d.largest_threshold_approvals_height target
                then target
                else d.largest_threshold_approvals_height;
          },
          r,
        )
      ]

-- `on_approval`: approvals outside the horizon are dropped.
unfoldable pub on_approval :
    Doomslug → Instant → Instant → ApprovalValidated → List (ApprovalStake × Bool) → Option Doomslug
unfolding on_approval_internal
on_approval d now utc approval stakes =
    let target = approval.content.target_height in
    if ltb target d.tip.height || ltb (d.tip.height + max_heights_ahead) target
    then some d
    else elim (on_approval_internal d now utc approval stakes) [
      | none ↦ none
      | some (d', r) ↦ some d'
    ]

-- `get_witness`.
unfoldable pub get_witness :
    Doomslug
    → CryptoHash
    → BlockHeight
    → BlockHeight
    → List (Address × (ApprovalValidated × Instant))
get_witness d prev_hash parent_height target_height =
    elim (HashMap.lookup target_height d.approval_tracking) [
      | none ↦ []
      | some s ↦
          elim (HashMap.lookup (new_inner prev_hash parent_height target_height)
            s.approval_trackers) [ none ↦ [] | some t ↦ t.witness ]
    ]

-- The tail of `ready_to_produce_block`, which logs and decides.
abbrev pub decide_ready : Doomslug → Instant → Bool → Readiness → Bool
decide_ready d now has_enough_chunks not_ready = false
decide_ready d now has_enough_chunks (ready_since since) =
    if has_enough_chunks
    then true
    else ltb (since + get_delay d.timer (d.timer.height - d.largest_final_height) / 6) now

-- `ready_to_produce_block`.
unfoldable pub ready_to_produce_block : Doomslug → Instant → BlockHeight → Bool → Doomslug × Bool
ready_to_produce_block d now target_height has_enough_chunks =
    let inner = new_inner d.tip.block_hash d.tip.height target_height in
    elim (HashMap.lookup target_height d.approval_tracking) [
      | none ↦ (d, false)
      | some s ↦ elim (HashMap.lookup inner s.approval_trackers) [
        | none ↦ (d, false)
        | some t ↦
            let (t', r) = get_block_production_readiness t now in
            (
              record d {
                approval_tracking =
                    HashMap.insert target_height
                      (record s { approval_trackers = HashMap.insert inner t' s.approval_trackers })
                      d.approval_tracking;
              },
              decide_ready d now has_enough_chunks r,
            )
      ]
    ]
