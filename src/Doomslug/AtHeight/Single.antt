-- ===== src/Doomslug/AtHeight/Single.antt =====
-- `process_approval` of pkg/doomslug/src/doomslug.rs keeps one approval for each account.
use tempo_zk_rollup.Base.{
  ◌≡◌, sym, ap, ◌∙◌, ◌⊎◌, inl, inr, Bool, true, false, ◌||◌, List, none, some, length,
  if◌then◌else◌, ◌==◌, Bool-cases, Option-cases, subst, some_injective, ==→eq,
}
use tempo_zk_rollup.Base.HashMap
use tempo_zk_rollup.Base.HashMap.{nat_eq}
use tempo_zk_rollup.Doomslug.Approval.{
  Address, Instant, ApprovalInner, inner_eq, inner_beq, inner_beq_iff, ApprovalValidated,
  ApprovalStake,
}
use tempo_zk_rollup.Doomslug.Tracker.{
  ThresholdMode, Readiness, not_ready, Stakes, Tracker, withdraw_approval, add_witness,
  get_block_production_readiness,
}
use tempo_zk_rollup.Doomslug.Tracker
use tempo_zk_rollup.Doomslug.AtHeight.{
  AtHeight, collect_stakes, withdraw_last, tracker_or_new, record_approval, process_approval,
}
use tempo_zk_rollup.Doomslug.AtHeight.Withdrawal.{
  IsSingle, IsWithout, witness-process_approval, not_both, withdraw_last-IsSingle,
  withdraw_last-IsWithout,
}

tracker_or_new-witness :
    (m : List (ApprovalInner × Tracker)) (inner : ApprovalInner) (stakes : List (Address × Stakes))
    (mode : ThresholdMode) (a : Address)
    → HashMap.contains_key a (tracker_or_new m inner stakes mode).witness ≡ true
    → (u : Tracker) × (HashMap.lookup inner m ≡ some u) × (HashMap.contains_key a u.witness ≡ true)
unfolding Tracker.new
tracker_or_new-witness m inner stakes mode a w = elim (Option-cases (HashMap.lookup inner m)) [
  | inl n ↦ let w' = rw (n, tracker_or_new) at w in cc
  | inr (u, n) ↦ (u, n, rw (n, tracker_or_new) at w)
]

record_approval-IsSingle :
    (s : AtHeight) (now utc : Instant) (p : ApprovalValidated) (stakes : List (Address × Stakes))
    (mode : ThresholdMode)
    → IsSingle s
    → IsWithout p.validator s
    → IsSingle (record_approval s now utc p stakes mode).0
unfolding record_approval
record_approval-IsSingle s now utc p stakes mode single without inner t a h c =
    elim (Bool-cases (inner_beq new_inner inner)) [
      | inl same ↦
          let e : new_inner ≡ inner = (inner_beq_iff new_inner inner).0 same in
          let is_t : after ≡ t = some_injective (
            sym (
              ap (λ (x : Bool). if x then some after else HashMap.lookup inner s.approval_trackers)
                same)
            ∙ sym (HashMap.lookup-insert new_inner inner after s.approval_trackers)
            ∙ h) in
          let held =
            sym (witness-process_approval before now utc p a)
            ∙ subst (λ u. HashMap.contains_key a u.witness ≡ true) (sym is_t) c in
          HashMap.lookup-insert p.validator a new_inner s.last_approval_per_account
          ∙ at_new e held (Bool-cases (p.validator == a))
      | inr other ↦
          let k : HashMap.lookup inner s.approval_trackers ≡ some t =
            sym (
              ap (λ (x : Bool). if x then some after else HashMap.lookup inner s.approval_trackers)
                other)
            ∙ sym (HashMap.lookup-insert new_inner inner after s.approval_trackers)
            ∙ h in
          HashMap.lookup-insert p.validator a new_inner s.last_approval_per_account
          ∙ at_other k (Bool-cases (p.validator == a))
    ]
  where
    new_inner : ApprovalInner
    new_inner = p.content.inner

    before : Tracker
    before = tracker_or_new s.approval_trackers new_inner stakes mode

    after : Tracker
    after = (Tracker.process_approval before now utc p).0

    at_new :
        new_inner ≡ inner
        → (p.validator == a || HashMap.contains_key a before.witness) ≡ true
        → ((p.validator == a) ≡ true) ⊎ ((p.validator == a) ≡ false)
        → (if p.validator == a
            then some new_inner
            else HashMap.lookup a s.last_approval_per_account)
          ≡ some inner
    at_new e held (inl q) = rw q (ap some e)
    at_new e held (inr q) =
        rw q (
          old e (tracker_or_new-witness s.approval_trackers new_inner stakes mode a (rw q at held)))
      where
        old :
            new_inner ≡ inner
            → (u : Tracker) × (HashMap.lookup new_inner s.approval_trackers ≡ some u)
              × (HashMap.contains_key a u.witness ≡ true)
            → HashMap.lookup a s.last_approval_per_account ≡ some inner
        old e (u, n, w) = single new_inner u a n w ∙ ap some e

    at_other :
        HashMap.lookup inner s.approval_trackers ≡ some t
        → ((p.validator == a) ≡ true) ⊎ ((p.validator == a) ≡ false)
        → (if p.validator == a
            then some new_inner
            else HashMap.lookup a s.last_approval_per_account)
          ≡ some inner
    at_other k (inl q) = absurd (
        not_both c (
          subst (λ b. HashMap.contains_key b t.witness ≡ false) (==→eq p.validator a q)
            (without inner t k)))
    at_other k (inr q) = rw q (single inner t a k c)

-- Where every witness of a tracker gave its last approval to the block of that tracker, this is
-- so after `process_approval` too, unless it panics.
pub process_approval-IsSingle :
    (s : AtHeight) (now utc : Instant) (p : ApprovalValidated)
    (stakes : List (ApprovalStake × Bool)) (mode : ThresholdMode) (s' : AtHeight) (r : Readiness)
    → IsSingle s
    → process_approval s now utc p stakes mode ≡ some (s', r)
    → IsSingle s'
unfolding process_approval
process_approval-IsSingle s now utc p stakes mode s' r single h =
    elim (Bool-cases (length m == length stakes)) [
      | inr e ↦ absurd (none≢some (rw e at h))
      | inl e ↦ elim (Bool-cases (HashMap.contains_key p.validator m)) [
        | inl c ↦
            subst IsSingle
              (ap (λ (x : AtHeight × Readiness). x.0) (some_injective (rw (e, c) at h)))
              (record_approval-IsSingle w now utc p m mode kept apart)
        | inr c ↦
            subst IsSingle
              (ap (λ (x : AtHeight × Readiness). x.0) (some_injective (rw (e, c) at h))) kept
      ]
    ]
  where
    m : List (Address × Stakes)
    m = collect_stakes stakes

    w : AtHeight
    w = withdraw_last s p.validator

    kept : IsSingle w
    kept = withdraw_last-IsSingle s p.validator single

    apart : IsWithout p.validator w
    apart = withdraw_last-IsWithout s p.validator single

    none≢some : {A : Type 0} {x : A} → none ≡ some x → ⊥
    none≢some q = cc
