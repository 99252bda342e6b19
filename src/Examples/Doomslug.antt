-- ===== src/Examples/Doomslug.antt =====
-- Runs of pkg/doomslug at concrete inputs: three validators with stakes 40, 40 and 20.
use tempo_zk_rollup.Base.{
  ◌*◌, ◌≡◌, ◌≢◌, ◌<◌, ◌≤◌, refl, ◌⊎◌, ◌↔◌, Bool, true, false, List, [], ◌∷◌, Option, none, some,
  All, length, arith,
}
use tempo_zk_rollup.Base.HashMap
use tempo_zk_rollup.Base.HashMap.{nat_eq}
use tempo_zk_rollup.Doomslug.Approval.{
  Address, endorsement, ApprovalValidated, ApprovalStake, inner_eq,
}
use tempo_zk_rollup.Doomslug.Tracker.{
  ThresholdMode, two_thirds, Readiness, not_ready, ready_since, Stakes, Tracker, add_witness,
  withdraw_approval, get_block_production_readiness, is_over_threshold,
}
use tempo_zk_rollup.Doomslug.Tracker
use tempo_zk_rollup.Doomslug.Tracker.Accounts.{total, approved}
use tempo_zk_rollup.Doomslug.Tracker.Threshold.{
  this_epoch, next_epoch, IsValid, new-IsValid, process_approval-IsValid, withdraw_approval-IsValid,
  ready_iff,
}
use tempo_zk_rollup.Doomslug.AtHeight.{AtHeight, withdraw_last, record_approval}
use tempo_zk_rollup.Doomslug.AtHeight
use tempo_zk_rollup.Doomslug.AtHeight.Single.{process_approval-IsSingle}
use tempo_zk_rollup.Doomslug.AtHeight.Withdrawal.{IsSingle, new-IsSingle}
use tempo_zk_rollup.Doomslug.State.{
  Doomslug, Timer, on_block, on_approval, on_approval_internal, get_delay, update_history,
  max_history_size,
}
use tempo_zk_rollup.Doomslug.TimerLoop.{process_timer, send_endorsement}
use tempo_zk_rollup.Doomslug.State
use tempo_zk_rollup.Doomslug.Horizon.{
  IsWithin, IsKept, on_block-IsWithin, on_block-lookup, on_approval-IsWithin,
}
use tempo_zk_rollup.Doomslug.Timer.{send_endorsement_fresh, Sends, process_timer_lem}
use tempo_zk_rollup.Doomslug.BlockApproval.{BlockStake, process_approval_slashed}

abbrev stakes : List (Address × Stakes)
stakes = (1, (40, 40)) ∷ (2, (40, 40)) ∷ (3, (20, 20)) ∷ []

abbrev stake_list : List (ApprovalStake × Bool)
stake_list =
    (record { validator = 1; stake_this_epoch = 40; stake_next_epoch = 40 }, false)
    ∷ (record { validator = 2; stake_this_epoch = 40; stake_next_epoch = 40 }, false)
    ∷ (record { validator = 3; stake_this_epoch = 20; stake_next_epoch = 20 }, false)
    ∷ []

abbrev slashed_list : List (ApprovalStake × Bool)
slashed_list =
    (record { validator = 1; stake_this_epoch = 40; stake_next_epoch = 40 }, false)
    ∷ (record { validator = 2; stake_this_epoch = 40; stake_next_epoch = 40 }, true)
    ∷ []

abbrev approval_of : Address → ApprovalValidated
approval_of v = record {
  content = record { inner = endorsement 7; target_height = 5 };
  signature = 0;
  validator = v;
}

abbrev tracker_0 : Tracker
tracker_0 = Tracker.new stakes two_thirds

tracker_0-IsValid : IsValid tracker_0
tracker_0-IsValid =
    new-IsValid stakes two_thirds
      ((omega arith, omega arith), ((omega arith, omega arith), ((omega arith, omega arith), tt)))

abbrev tracker_1 : Tracker
tracker_1 = (Tracker.process_approval tracker_0 100 100 (approval_of 1)).0

tracker_1-IsValid : IsValid tracker_1
tracker_1-IsValid = process_approval-IsValid tracker_0 100 100 (approval_of 1) tracker_0-IsValid

process_approval-IsValid_example :
    IsValid (Tracker.process_approval tracker_1 101 101 (approval_of 2)).0
process_approval-IsValid_example =
    process_approval-IsValid tracker_1 101 101 (approval_of 2) tracker_1-IsValid

withdraw_approval-IsValid_example : IsValid (withdraw_approval tracker_1 1)
withdraw_approval-IsValid_example = withdraw_approval-IsValid tracker_1 1 tracker_1-IsValid

keeps_mode : tracker_1.threshold_mode ≡ two_thirds
unfolding Tracker.process_approval Tracker.new add_witness get_block_production_readiness
    is_over_threshold
keeps_mode = refl

keeps_stakes : tracker_1.account_id_to_stakes ≡ stakes
unfolding Tracker.process_approval Tracker.new add_witness get_block_production_readiness
    is_over_threshold
keeps_stakes = refl

ready_iff_example : ((get_block_production_readiness tracker_1 102).1 ≢ not_ready) ↔ (
    (2 * total this_epoch tracker_1.account_id_to_stakes
      < 3 * approved this_epoch tracker_1.account_id_to_stakes tracker_1.witness)
    × ((2 * total next_epoch tracker_1.account_id_to_stakes
          < 3 * approved next_epoch tracker_1.account_id_to_stakes tracker_1.witness)
        ⊎ (total next_epoch tracker_1.account_id_to_stakes ≡ 0)))
ready_iff_example =
    ready_iff tracker_1 102 tracker_1-IsValid keeps_mode (rw keeps_stakes (omega arith))
      (rw keeps_stakes (omega arith))

abbrev result_of : {A : Type 0} → A → Option A → A
result_of d none = d
result_of d (some x) = x

abbrev after : AtHeight × Readiness
after =
    result_of (AtHeight.new, not_ready)
      (AtHeight.process_approval AtHeight.new 100 100 (approval_of 1) stake_list two_thirds)

processed :
    AtHeight.process_approval AtHeight.new 100 100 (approval_of 1) stake_list two_thirds
    ≡ some (after.0, after.1)
unfolding AtHeight.process_approval
processed = refl

process_approval-IsSingle_example : IsSingle after.0
process_approval-IsSingle_example =
    process_approval-IsSingle AtHeight.new 100 100 (approval_of 1) stake_list two_thirds after.0
      after.1 new-IsSingle processed

process_approval_slashed_example :
    AtHeight.process_approval AtHeight.new 100 100 (approval_of 1) slashed_list two_thirds ≡ none
process_approval_slashed_example =
    process_approval_slashed AtHeight.new 100 100 (approval_of 1) slashed_list two_thirds refl

abbrev start : Doomslug
start = State.new 0 20 10 5 100 two_thirds 1000

abbrev at_block : Doomslug
at_block = on_block start 1000 7 4 3

abbrev approved_once : Doomslug
approved_once = result_of at_block (on_approval at_block 1001 1001 (approval_of 1) stake_list)

accepted : on_approval at_block 1001 1001 (approval_of 1) stake_list ≡ some approved_once
unfolding on_approval on_approval_internal AtHeight.process_approval on_block State.new
accepted = refl

on_block-lookup_example :
    ((IsKept 25 5
        × (HashMap.lookup 5 (on_block approved_once 1002 8 25 3).approval_tracking
            ≡ HashMap.lookup 5 approved_once.approval_tracking))
      ⊎ (¬ IsKept 25 5
          × (HashMap.lookup 5 (on_block approved_once 1002 8 25 3).approval_tracking ≡ none)))
    × ((on_block approved_once 1002 8 25 3).tip ≡ record { block_hash = 8; height = 25 })
on_block-lookup_example = on_block-lookup approved_once 1002 8 25 3 5

on_approval-IsWithin_example : IsWithin approved_once × (approved_once.tip ≡ at_block.tip)
on_approval-IsWithin_example =
    on_approval-IsWithin at_block approved_once 1001 1001 (approval_of 1) stake_list
      (on_block-IsWithin start 1000 7 4 3) accepted

process_timer_lem_example :
    Sends at_block
      (process_timer at_block 1030 1030 1030).0
      (process_timer at_block 1030 1030 1030).1
    × (length (process_timer at_block 1030 1030 1030).1 ≤ 21)
process_timer_lem_example = process_timer_lem at_block 1030 1030 1030

send_endorsement_fresh_example :
    All
      (λ a.
        (at_block.largest_sent_target_height < a.target_height)
        × (a.inner ≡ endorsement at_block.tip.block_hash))
      (send_endorsement at_block 1030 1030 1030).1
send_endorsement_fresh_example = send_endorsement_fresh at_block 1030 1030 1030

abbrev timer : Timer
timer = record {
  started = 0;
  last_endorsement_sent = 0;
  height = 0;
  endorsement_delay = 20;
  min_delay = 10;
  delay_step = 5;
  max_delay = 100;
}

abbrev block_stakes : List BlockStake
block_stakes =
    record { this_epoch = 40; next_epoch = 40; is_slashed = false }
    ∷ record { this_epoch = 40; next_epoch = 40; is_slashed = false }
    ∷ record { this_epoch = 20; next_epoch = 20; is_slashed = true }
    ∷ []

abbrev votes : List (Option Bool)
votes = some true ∷ some true ∷ none ∷ []
