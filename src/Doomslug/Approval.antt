-- ===== src/Doomslug/Approval.antt =====
-- pkg/doomslug/src/approval.rs and types.rs: approvals.
use tempo_zk_rollup.Base.{ℕ, ◌+◌, ◌≡◌, ◌↔◌, Bool, true, false, ◌==◌, if◌then◌else◌, arith}
use tempo_zk_rollup.Base.HashMap.{Eq}

abbrev pub BlockHeight : Type 0
BlockHeight = ℕ

-- A `u128`.
abbrev pub Balance : Type 0
Balance = ℕ

abbrev pub Address : Type 0
Address = ℕ

abbrev pub CryptoHash : Type 0
CryptoHash = ℕ

-- Points and spans of time, in ticks of the clock.
abbrev pub Instant : Type 0
Instant = ℕ

abbrev pub Duration : Type 0
Duration = ℕ

pub data ApprovalInner : Type 0 where
  endorsement : CryptoHash → ApprovalInner
  skip : BlockHeight → ApprovalInner

abbrev pub inner_beq : ApprovalInner → ApprovalInner → Bool
inner_beq (endorsement a) (endorsement b) = a == b
inner_beq (endorsement a) (skip b) = false
inner_beq (skip a) (endorsement b) = false
inner_beq (skip a) (skip b) = a == b

pub inner_beq_iff : (a b : ApprovalInner) → (inner_beq a b ≡ true) ↔ (a ≡ b)
inner_beq_iff (endorsement a) (endorsement b) = ground arith
inner_beq_iff (endorsement a) (skip b) = ground arith
inner_beq_iff (skip a) (endorsement b) = ground arith
inner_beq_iff (skip a) (skip b) = ground arith

instance abbrev pub inner_eq : Eq ApprovalInner
inner_eq = record { beq = inner_beq; beq_iff = inner_beq_iff }

pub record ApprovalContent : Type 0 where
  pub inner : ApprovalInner
  pub target_height : BlockHeight

-- The signature, which nothing here reads, is a number.
pub record ApprovalValidated : Type 0 where
  pub content : ApprovalContent
  pub signature : ℕ
  pub validator : Address

pub record ApprovalStake : Type 0 where
  pub validator : Address
  pub stake_this_epoch : Balance
  pub stake_next_epoch : Balance

pub record ApprovalHistoryEntry : Type 0 where
  pub parent_height : BlockHeight
  pub target_height : BlockHeight
  pub approval_creation_time : Instant
  pub timer_started_ago_millis : Duration
  pub expected_delay_millis : Duration

-- `ApprovalInner::new`: an endorsement for the next height, a skip for any other.
unfoldable pub new_inner : CryptoHash → BlockHeight → BlockHeight → ApprovalInner
new_inner parent_hash parent_height target_height =
    if target_height == parent_height + 1 then endorsement parent_hash else skip parent_height

-- `ApprovalContent::new`.
unfoldable pub new_content : CryptoHash → BlockHeight → BlockHeight → ApprovalContent
unfolding new_inner
new_content parent_hash parent_height target_height = record {
  inner = new_inner parent_hash parent_height target_height;
  target_height = target_height;
}
