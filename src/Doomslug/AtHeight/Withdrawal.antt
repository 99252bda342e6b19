-- ===== src/Doomslug/AtHeight/Withdrawal.antt =====
-- `withdraw_last` keeps one approval for each account: pkg/doomslug/src/doomslug.rs.
use tempo_zk_rollup.Base.{
  ◌≡◌, ◌≢◌, sym, ap, ◌∙◌, ◌⊎◌, inl, inr, Bool, true, false, ◌||◌, none, some, if◌then◌else◌, ◌==◌,
  arith, Bool-cases, Option-cases, subst, some_injective, ==→eq,
}
use tempo_zk_rollup.Base.HashMap
use tempo_zk_rollup.Base.HashMap.{nat_eq}
use tempo_zk_rollup.Doomslug.Approval.{
  Address, Instant, ApprovalInner, inner_eq, inner_beq, inner_beq_iff, ApprovalValidated,
}
use tempo_zk_rollup.Doomslug.Tracker.{
  ThresholdMode, Readiness, not_ready, Stakes, Tracker, withdraw_approval, add_witness,
  get_block_production_readiness,
}
use tempo_zk_rollup.Doomslug.Tracker
use tempo_zk_rollup.Doomslug.AtHeight.{AtHeight, new, withdraw_last}
use tempo_zk_rollup.Doomslug.AtHeight.{is_empty}

-- A witness of a tracker gave its last approval to that tracker's block.
abbrev pub IsSingle : AtHeight → Type 0
IsSingle s =
    (inner : ApprovalInner) (t : Tracker) (a : Address)
    → HashMap.lookup inner s.approval_trackers ≡ some t
    → HashMap.contains_key a t.witness ≡ true
    → HashMap.lookup a s.last_approval_per_account ≡ some inner

-- No tracker has the account among its witnesses.
abbrev pub IsWithout : Address → AtHeight → Type 0
IsWithout v s =
    (inner : ApprovalInner) (t : Tracker)
    → HashMap.lookup inner s.approval_trackers ≡ some t
    → HashMap.contains_key v t.witness ≡ false

pub new-IsSingle : IsSingle new
new-IsSingle inner t a h c = cc

pub witness-process_approval :
    (t : Tracker) (now utc : Instant) (p : ApprovalValidated) (a : Address)
    → HashMap.contains_key a (Tracker.process_approval t now utc p).0.witness
      ≡ (p.validator == a || HashMap.contains_key a t.witness)
unfolding Tracker.process_approval add_witness get_block_production_readiness
witness-process_approval t now utc p a =
    ground (arith, HashMap.contains_key-insert p.validator a (p, utc) t.witness)

witness-withdraw_approval :
    (t : Tracker) (v a : Address)
    → HashMap.contains_key a (withdraw_approval t v).witness
      ≡ (if v == a then false else HashMap.contains_key a t.witness)
unfolding withdraw_approval
witness-withdraw_approval t v a = elim (Option-cases (HashMap.lookup v t.witness)) [
  | inl n ↦
      rw (n, withdraw_approval)
        (absent (Bool-cases (v == a)) (HashMap.contains_key-none v t.witness n))
  | inr (w, n) ↦ rw (n, withdraw_approval) (HashMap.contains_key-remove v a t.witness)
]
  where
    absent :
        ((v == a) ≡ true) ⊎ ((v == a) ≡ false)
        → HashMap.contains_key v t.witness ≡ false
        → HashMap.contains_key a t.witness
          ≡ (if v == a then false else HashMap.contains_key a t.witness)
    absent (inl e) n = rw e (subst (λ k. HashMap.contains_key k t.witness ≡ false) (==→eq v a e) n)
    absent (inr e) n = rw e

-- What `withdraw_last` leaves of the trackers: old ones, the account's last without it.
data Kept (s : AtHeight) (v : Address) (inner : ApprovalInner) (t : Tracker) : Type 0 where
  untouched :
      HashMap.lookup inner s.approval_trackers ≡ some t
      → HashMap.lookup v s.last_approval_per_account ≢ some inner
      → Kept s v inner t
  withdrawn :
      (t' : Tracker)
      → HashMap.lookup inner s.approval_trackers ≡ some t'
      → t ≡ withdraw_approval t' v
      → Kept s v inner t

withdraw_last-Kept :
    (s : AtHeight) (v : Address) (inner : ApprovalInner) (t : Tracker)
    → HashMap.lookup inner (withdraw_last s v).approval_trackers ≡ some t
    → Kept s v inner t
unfolding withdraw_last
withdraw_last-Kept s v inner t h =
    elim (Option-cases (HashMap.lookup v s.last_approval_per_account)) [
      | inl n ↦ untouched (rw (n, withdraw_last) at h) (λ q. none≢some (sym n ∙ q))
      | inr (last, l) ↦ elim (Option-cases (HashMap.lookup last s.approval_trackers)) [
        | inl n ↦
            let h' : HashMap.lookup inner s.approval_trackers ≡ some t =
              rw (l, n, withdraw_last) at h in
            untouched h' (λ q. none≢some (
              sym n
              ∙ ap (λ k. HashMap.lookup k s.approval_trackers) (some_injective (sym l ∙ q))
              ∙ h'))
        | inr (t', n) ↦ in_tracker last t' l n (rw (l, n, withdraw_last) at h)
      ]
    ]
  where
    none≢some : {A : Type 0} {x : A} → none ≡ some x → ⊥
    none≢some q = cc

    in_tracker :
        (last : ApprovalInner) (t' : Tracker)
        → HashMap.lookup v s.last_approval_per_account ≡ some last
        → HashMap.lookup last s.approval_trackers ≡ some t'
        → HashMap.lookup inner (
            if is_empty (withdraw_approval t' v).witness
            then HashMap.remove last s.approval_trackers
            else HashMap.insert last (withdraw_approval t' v) s.approval_trackers)
          ≡ some t
        → Kept s v inner t
    in_tracker last t' l n k = elim (Bool-cases (inner_beq last inner)) [
      | inl same ↦
          let e : last ≡ inner = (inner_beq_iff last inner).0 same in
          withdrawn t' (subst (λ i. HashMap.lookup i s.approval_trackers ≡ some t') e n)
            (elim (Bool-cases (is_empty (withdraw_approval t' v).witness)) [
              | inl b ↦ absurd (
                  none≢some (
                    sym (
                      ap
                        (λ (x : Bool). if x then none else HashMap.lookup inner s.approval_trackers)
                        same)
                    ∙ sym (HashMap.lookup-remove last inner s.approval_trackers)
                    ∙ (rw b at k)))
              | inr b ↦ some_injective (
                  sym (rw b at k)
                  ∙ HashMap.lookup-insert last inner (withdraw_approval t' v) s.approval_trackers
                  ∙ ap
                      (λ (x : Bool).
                        if x
                        then some (withdraw_approval t' v)
                        else HashMap.lookup inner s.approval_trackers)
                      same)
            ])
      | inr other ↦
          untouched
            (elim (Bool-cases (is_empty (withdraw_approval t' v).witness)) [
              | inl b ↦
                  sym (
                    ap (λ (x : Bool). if x then none else HashMap.lookup inner s.approval_trackers)
                      other)
                  ∙ sym (HashMap.lookup-remove last inner s.approval_trackers)
                  ∙ (rw b at k)
              | inr b ↦
                  sym (
                    ap
                      (λ (x : Bool).
                        if x
                        then some (withdraw_approval t' v)
                        else HashMap.lookup inner s.approval_trackers)
                      other)
                  ∙ sym (
                      HashMap.lookup-insert last inner (withdraw_approval t' v) s.approval_trackers)
                  ∙ (rw b at k)
            ])
            (λ q.
              true≢false (sym ((inner_beq_iff last inner).1 (some_injective (sym l ∙ q))) ∙ other))
    ]
      where
        true≢false : true ≡ false → ⊥
        true≢false q = cc

pub withdraw_last-last :
    (s : AtHeight) (v : Address)
    → (withdraw_last s v).last_approval_per_account ≡ s.last_approval_per_account
unfolding withdraw_last
withdraw_last-last s v = ground arith

pub not_both : {b : Bool} → b ≡ true → b ≡ false → ⊥
not_both p q = cc

pub withdraw_last-IsSingle :
    (s : AtHeight) (v : Address) → IsSingle s → IsSingle (withdraw_last s v)
withdraw_last-IsSingle s v single inner t a h c =
    rw (withdraw_last-last s v) (from (withdraw_last-Kept s v inner t h))
  where
    from : Kept s v inner t → HashMap.lookup a s.last_approval_per_account ≡ some inner
    from (untouched k n) = single inner t a k c
    from (withdrawn t' k e) = single inner t' a k (
        ground (
          arith,
          witness-withdraw_approval t' v a,
          subst (λ u. HashMap.contains_key a u.witness ≡ true) e c,
        ))

pub withdraw_last-IsWithout :
    (s : AtHeight) (v : Address) → IsSingle s → IsWithout v (withdraw_last s v)
withdraw_last-IsWithout s v single inner t h = from (withdraw_last-Kept s v inner t h)
  where
    from : Kept s v inner t → HashMap.contains_key v t.witness ≡ false
    from (untouched k n) = elim (Bool-cases (HashMap.contains_key v t.witness)) [
      | inl c ↦ absurd (n (single inner t v k c))
      | inr c ↦ c
    ]
    from (withdrawn t' k e) =
        subst (λ u. HashMap.contains_key v u.witness ≡ false) (sym e)
          (ground (arith, witness-withdraw_approval t' v v))
