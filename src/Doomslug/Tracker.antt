-- ===== src/Doomslug/Tracker.antt =====
-- `DoomslugApprovalsTracker` of pkg/doomslug/src/doomslug.rs: the approvals of one block.
pub mod Accounts
pub mod Threshold
use tempo_zk_rollup.Base.{
  ℕ, ◌+◌, ◌-◌, ◌*◌, ◌/◌, ◌%◌, ◌^◌, Bool, true, false, ◌&&◌, ◌||◌, List, [], ◌∷◌, Option, none, some,
  ltb, ◌==◌, if◌then◌else◌,
}
use tempo_zk_rollup.Base.HashMap
use tempo_zk_rollup.Base.HashMap.{nat_eq}
use tempo_zk_rollup.Doomslug.Approval.{Address, Balance, Instant, ApprovalValidated}

pub data ThresholdMode : Type 0 where
  no_approvals two_thirds : ThresholdMode

abbrev pub is_no_approvals : ThresholdMode → Bool
is_no_approvals no_approvals = true
is_no_approvals two_thirds = false

pub data Readiness : Type 0 where
  not_ready : Readiness
  ready_since : Instant → Readiness

-- Arithmetic on a `u128` wraps.
abbrev pub u128 : ℕ → ℕ
u128 n = n % 2 ^ 128

abbrev pub Stakes : Type 0
Stakes = Balance × Balance

pub record Tracker : Type 0 where
  pub witness : List (Address × (ApprovalValidated × Instant))
  pub account_id_to_stakes : List (Address × Stakes)
  pub total_stake_this_epoch : Balance
  pub approved_stake_this_epoch : Balance
  pub total_stake_next_epoch : Balance
  pub approved_stake_next_epoch : Balance
  pub time_passed_threshold : Option Instant
  pub threshold_mode : ThresholdMode

-- The sums over `account_id_to_stakes.values()`.
abbrev pub sum_this : List (Address × Stakes) → Balance
sum_this [] = 0
sum_this ((a, s) ∷ m) = u128 (s.0 + sum_this m)

abbrev pub sum_next : List (Address × Stakes) → Balance
sum_next [] = 0
sum_next ((a, s) ∷ m) = u128 (s.1 + sum_next m)

-- `DoomslugApprovalsTracker::new`.
unfoldable pub new : List (Address × Stakes) → ThresholdMode → Tracker
new account_id_to_stakes mode = record {
  witness = [];
  account_id_to_stakes = account_id_to_stakes;
  total_stake_this_epoch = sum_this account_id_to_stakes;
  approved_stake_this_epoch = 0;
  total_stake_next_epoch = sum_next account_id_to_stakes;
  approved_stake_next_epoch = 0;
  time_passed_threshold = none;
  threshold_mode = mode;
}

-- `self.account_id_to_stakes.get(&validator).map_or((0, 0), |x| *x)`.
abbrev pub stakes_of : List (Address × Stakes) → Address → Stakes
stakes_of m a = elim (HashMap.lookup a m) [ none ↦ (0, 0) | some s ↦ s ]

-- The condition of `get_block_production_readiness`.
unfoldable pub is_over_threshold : Tracker → Bool
is_over_threshold t =
    (ltb (u128 (t.total_stake_this_epoch * 2) / 3) t.approved_stake_this_epoch
      && (ltb (u128 (t.total_stake_next_epoch * 2) / 3) t.approved_stake_next_epoch
          || t.total_stake_next_epoch == 0))
    || is_no_approvals t.threshold_mode

-- `get_block_production_readiness`: the first time over the threshold is kept.
unfoldable pub get_block_production_readiness : Tracker → Instant → Tracker × Readiness
unfolding is_over_threshold
get_block_production_readiness t now =
    if is_over_threshold t
    then elim t.time_passed_threshold [
      | none ↦ (record t { time_passed_threshold = some now }, ready_since now)
      | some since ↦ (t, ready_since since)
    ]
    else (t, not_ready)

-- The part of `process_approval` that records the witness; `utc` is the clock's answer.
unfoldable pub add_witness : Tracker → Instant → ApprovalValidated → Tracker
add_witness t utc approval =
    if HashMap.contains_key approval.validator t.witness
    then t
    else (let stakes = stakes_of t.account_id_to_stakes approval.validator in
        record t {
          witness = HashMap.insert approval.validator (approval, utc) t.witness;
          approved_stake_this_epoch = u128 (t.approved_stake_this_epoch + stakes.0);
          approved_stake_next_epoch = u128 (t.approved_stake_next_epoch + stakes.1);
        })

-- `DoomslugApprovalsTracker::process_approval`.
unfoldable pub process_approval :
    Tracker → Instant → Instant → ApprovalValidated → Tracker × Readiness
process_approval t now utc approval =
    get_block_production_readiness (add_witness t utc approval) now

-- `withdraw_approval`.
unfoldable pub withdraw_approval : Tracker → Address → Tracker
withdraw_approval t validator = elim (HashMap.lookup validator t.witness) [
  | none ↦ t
  | some w ↦
      (let stakes = stakes_of t.account_id_to_stakes w.0.validator in
        record t {
          witness = HashMap.remove validator t.witness;
          approved_stake_this_epoch = u128 (t.approved_stake_this_epoch + 2 ^ 128 - stakes.0);
          approved_stake_next_epoch = u128 (t.approved_stake_next_epoch + 2 ^ 128 - stakes.1);
        })
]
