-- ===== src/Doomslug/AtHeight.antt =====
-- `DoomslugApprovalsTrackersAtHeight` of pkg/doomslug/src/doomslug.rs: the trackers of one target
-- height, with the last approval of each account.
pub mod Single
pub mod Withdrawal
use tempo_zk_rollup.Base.{
  ℕ, ◌+◌, ◌≡◌, ◌≢◌, refl, sym, ap, ◌∙◌, ◌⊎◌, inl, inr, Bool, true, false, not, List, [], ◌∷◌,
  Option, none, some, length, if◌then◌else◌, ◌==◌, arith, Bool-cases, Option-cases, subst,
}
use tempo_zk_rollup.Base.HashMap
use tempo_zk_rollup.Base.HashMap.{nat_eq}
use tempo_zk_rollup.Doomslug.Approval.{
  Address, Instant, ApprovalInner, inner_eq, inner_beq, inner_beq_iff, ApprovalValidated,
  ApprovalStake,
}
use tempo_zk_rollup.Doomslug.Tracker.{
  ThresholdMode, Readiness, not_ready, Stakes, Tracker, withdraw_approval, add_witness,
  get_block_production_readiness, is_over_threshold,
}
use tempo_zk_rollup.Doomslug.Tracker

pub record AtHeight : Type 0 where
  pub approval_trackers : List (ApprovalInner × Tracker)
  pub last_approval_per_account : List (Address × ApprovalInner)

abbrev pub new : AtHeight
new = record { approval_trackers = []; last_approval_per_account = [] }

-- The map of the stakes of the accounts that are not slashed.
abbrev pub collect_stakes : List (ApprovalStake × Bool) → List (Address × Stakes)
collect_stakes [] = []
collect_stakes ((x, is_slashed) ∷ rest) =
    let m = collect_stakes rest in
    if is_slashed then m else HashMap.insert x.validator (x.stake_this_epoch, x.stake_next_epoch) m

abbrev is_empty : {A : Type 0} → List A → Bool
is_empty [] = true
is_empty (x ∷ xs) = false

-- The approval that the account gave last is withdrawn; a tracker with no witness left goes.
unfoldable pub withdraw_last : AtHeight → Address → AtHeight
withdraw_last s validator = elim (HashMap.lookup validator s.last_approval_per_account) [
  | none ↦ s
  | some last_parent ↦ elim (HashMap.lookup last_parent s.approval_trackers) [
    | none ↦ s
    | some t ↦
        (let t' = withdraw_approval t validator in
          record s {
            approval_trackers =
                if is_empty t'.witness
                then HashMap.remove last_parent s.approval_trackers
                else HashMap.insert last_parent t' s.approval_trackers;
          })
  ]
]

-- `entry(inner).or_insert_with(...)`.
abbrev pub tracker_or_new :
    List (ApprovalInner × Tracker)
    → ApprovalInner
    → List (Address × Stakes)
    → ThresholdMode
    → Tracker
tracker_or_new trackers inner stakes mode = elim (HashMap.lookup inner trackers) [
  | none ↦ Tracker.new stakes mode
  | some t ↦ t
]

-- The approval is recorded as the account's last, and handed to its tracker.
unfoldable pub record_approval :
    AtHeight
    → Instant
    → Instant
    → ApprovalValidated
    → List (Address × Stakes)
    → ThresholdMode
    → AtHeight × Readiness
record_approval s now utc approval stakes mode =
    let inner = approval.content.inner in
    let (t, readiness) =
      Tracker.process_approval (tracker_or_new s.approval_trackers inner stakes mode) now utc
        approval in
    (
      record {
        approval_trackers = HashMap.insert inner t s.approval_trackers;
        last_approval_per_account =
            HashMap.insert approval.validator inner s.last_approval_per_account;
      },
      readiness,
    )

-- `DoomslugApprovalsTrackersAtHeight::process_approval`; `none` is the panic of the assertion that
-- no stake was left out of the map.
unfoldable pub process_approval :
    AtHeight
    → Instant
    → Instant
    → ApprovalValidated
    → List (ApprovalStake × Bool)
    → ThresholdMode
    → Option (AtHeight × Readiness)
unfolding withdraw_last record_approval
process_approval s now utc approval stakes mode =
    let s' = withdraw_last s approval.validator in
    let account_id_to_stakes = collect_stakes stakes in
    if length account_id_to_stakes == length stakes
    then some (
        if HashMap.contains_key approval.validator account_id_to_stakes
        then record_approval s' now utc approval account_id_to_stakes mode
        else (s', not_ready))
    else none
