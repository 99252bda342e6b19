-- ===== src/Doomslug/BlockApproval.antt =====
-- `can_approved_block_be_produced` of pkg/doomslug/src/doomslug.rs, and the panic of
-- `process_approval` on slashed stakes.
use tempo_zk_rollup.Base.{
  ℕ, ◌+◌, ◌*◌, ◌/◌, ◌≤◌, ◌<◌, ◌≡◌, ◌⊎◌, Bool, true, false, ◌&&◌, ◌||◌, List, [], ◌∷◌, Option, none,
  some, length, any, ltb, ◌==◌, if◌then◌else◌, arith,
}
use tempo_zk_rollup.Base.HashMap
use tempo_zk_rollup.Base.HashMap.{nat_eq}
use tempo_zk_rollup.Doomslug.Approval.{Balance, Instant, ApprovalValidated, ApprovalStake}
use tempo_zk_rollup.Doomslug.Tracker.{ThresholdMode, no_approvals, two_thirds, u128}
use tempo_zk_rollup.Doomslug.AtHeight.{AtHeight, collect_stakes, process_approval}

-- A validator's stakes in the two epochs, and whether it was slashed.
pub record BlockStake : Type 0 where
  pub this_epoch : Balance
  pub next_epoch : Balance
  pub is_slashed : Bool

-- `stakes.iter().map(...).sum::<Balance>()`.
abbrev pub sum_stakes : (BlockStake → Balance) → List BlockStake → Balance
sum_stakes pick [] = 0
sum_stakes pick (s ∷ ss) = u128 (pick s + sum_stakes pick ss)

abbrev pub counted : (BlockStake → Balance) → Option Bool → BlockStake → Balance
counted pick none s = 0
counted pick (some b) s = if s.is_slashed then 0 else pick s

-- The zip of approvals and stakes, the slashed ones filtered out, summed up.
abbrev pub sum_approved : (BlockStake → Balance) → List (Option Bool) → List BlockStake → Balance
sum_approved pick [] ss = 0
sum_approved pick (a ∷ as') [] = 0
sum_approved pick (a ∷ as') (s ∷ ss) = u128 (counted pick a s + sum_approved pick as' ss)

-- `can_approved_block_be_produced`.
unfoldable pub can_approved_block_be_produced :
    ThresholdMode → List (Option Bool) → List BlockStake → Bool
can_approved_block_be_produced no_approvals approvals stakes = true
can_approved_block_be_produced two_thirds approvals stakes =
    let threshold1 = u128 (sum_stakes (λ s. s.this_epoch) stakes * 2) / 3 in
    let threshold2 = u128 (sum_stakes (λ s. s.next_epoch) stakes * 2) / 3 in
    let approved1 = sum_approved (λ s. s.this_epoch) approvals stakes in
    let approved2 = sum_approved (λ s. s.next_epoch) approvals stakes in
    (ltb threshold1 approved1 || threshold1 == 0) && (ltb threshold2 approved2 || threshold2 == 0)

-- The sums with nothing wrapped.
abbrev pub total : (BlockStake → Balance) → List BlockStake → ℕ
total pick [] = 0
total pick (s ∷ ss) = pick s + total pick ss

abbrev pub approved : (BlockStake → Balance) → List (Option Bool) → List BlockStake → ℕ
approved pick [] ss = 0
approved pick (a ∷ as') [] = 0
approved pick (a ∷ as') (s ∷ ss) = counted pick a s + approved pick as' ss

-- More than two thirds of the stake approve, or the stake is too small for a threshold.
abbrev pub IsApproved : (BlockStake → Balance) → List (Option Bool) → List BlockStake → Type 0
IsApproved pick approvals stakes =
    (2 * total pick stakes < 3 * approved pick approvals stakes) ⊎ (total pick stakes ≤ 1)

length-insert-le :
    {V : Type 0} (k : ℕ) (v : V) (m : List (ℕ × V)) → length (HashMap.insert k v m) ≤ length m + 1
length-insert-le k v [] = omega arith
length-insert-le k v ((j, w) ∷ m) = ground (arith, length-insert-le k v m)

collect_stakes_le :
    (stakes : List (ApprovalStake × Bool)) → length (collect_stakes stakes) ≤ length stakes
collect_stakes_le [] = omega arith
collect_stakes_le ((s, b) ∷ stakes) = ground (
  arith,
  collect_stakes_le stakes,
  length-insert-le s.validator (s.stake_this_epoch, s.stake_next_epoch) (collect_stakes stakes),
)

collect_stakes_lt :
    (stakes : List (ApprovalStake × Bool))
    → any (λ s. s.1) stakes ≡ true
    → length (collect_stakes stakes) < length stakes
collect_stakes_lt [] h = cc
collect_stakes_lt ((s, true) ∷ stakes) h = omega (arith, collect_stakes_le stakes)
collect_stakes_lt ((s, false) ∷ stakes) h = omega (
  arith,
  collect_stakes_lt stakes h,
  length-insert-le s.validator (s.stake_this_epoch, s.stake_next_epoch) (collect_stakes stakes),
)

-- With a slashed validator among the stakes, `process_approval` panics on every approval.
pub process_approval_slashed :
    (s : AtHeight) (now utc : Instant) (a : ApprovalValidated)
    (stakes : List (ApprovalStake × Bool)) (mode : ThresholdMode)
    → any (λ x. x.1) stakes ≡ true
    → process_approval s now utc a stakes mode ≡ none
unfolding process_approval
process_approval_slashed s now utc a stakes mode h = rw (not_equal (collect_stakes_lt stakes h))
  where
    not_equal : {m n : ℕ} → m < n → (m == n) ≡ false
    not_equal l = ground arith
