-- ===== src/Doomslug/Tracker/Threshold.antt =====
-- `process_approval`, `withdraw_approval` and `get_block_production_readiness` of
-- pkg/doomslug/src/doomslug.rs: a block is ready when more than two thirds of the stake approve.
use tempo_zk_rollup.Base.{
  ◌+◌, ◌*◌, ◌^◌, ◌≤◌, ◌<◌, ◌≡◌, ◌≢◌, refl, ◌⊎◌, inl, inr, ◌↔◌, false, List, [], ◌∷◌, ◌==◌, arith,
  Bool-cases, Option-cases,
}
use tempo_zk_rollup.Base.HashMap
use tempo_zk_rollup.Base.HashMap.{
  nat_eq, AllPairs, AllPairs-insert, AllPairs-remove, AllPairs-lookup, contains_key-lookup,
}
use tempo_zk_rollup.Doomslug.Approval.{Address, Instant, ApprovalValidated}
use tempo_zk_rollup.Doomslug.Tracker.{
  ThresholdMode, two_thirds, not_ready, u128, Stakes, Tracker, new, stakes_of, is_over_threshold,
  get_block_production_readiness, add_witness, process_approval, withdraw_approval,
}
use tempo_zk_rollup.Doomslug.Tracker.Accounts.{
  Pick, total, approved, IsMap, IsMap-remove, IsMap-insert, approved-insert, approved-remove,
  sum_this-total, sum_next-total,
}

abbrev pub this_epoch : Pick
this_epoch s = s.0

abbrev pub next_epoch : Pick
next_epoch s = s.1

-- The counted stakes are those of the witnesses, each under its own address, up to the wrap-around.
pub record IsValid (t : Tracker) : Type 0 where
  pub distinct : IsMap t.witness
  pub own : AllPairs (λ a w. w.0.validator ≡ a) t.witness
  pub stakes_small : AllPairs (λ a s. (s.0 < 2 ^ 128) × (s.1 < 2 ^ 128)) t.account_id_to_stakes
  pub total_this : t.total_stake_this_epoch ≡ u128 (total this_epoch t.account_id_to_stakes)
  pub total_next : t.total_stake_next_epoch ≡ u128 (total next_epoch t.account_id_to_stakes)
  pub approved_this :
      t.approved_stake_this_epoch ≡ u128 (approved this_epoch t.account_id_to_stakes t.witness)
  pub approved_next :
      t.approved_stake_next_epoch ≡ u128 (approved next_epoch t.account_id_to_stakes t.witness)

pub new-IsValid :
    (m : List (Address × Stakes)) (mode : ThresholdMode)
    → AllPairs (λ a s. (s.0 < 2 ^ 128) × (s.1 < 2 ^ 128)) m
    → IsValid (new m mode)
unfolding new
new-IsValid m mode small = record {
  distinct = tt;
  own = tt;
  stakes_small = small;
  total_this = sum_this-total m;
  total_next = sum_next-total m;
  approved_this = refl;
  approved_next = refl;
}

get_block_production_readiness-IsValid :
    (t : Tracker) (now : Instant) → IsValid t → IsValid (get_block_production_readiness t now).0
unfolding get_block_production_readiness
get_block_production_readiness-IsValid t now v = elim (Bool-cases (is_over_threshold t)) [
  | inl e ↦ elim (Option-cases t.time_passed_threshold) [
    | inl n ↦
        rw (e, n)
          (record {
            distinct = v.distinct;
            own = v.own;
            stakes_small = v.stakes_small;
            total_this = v.total_this;
            total_next = v.total_next;
            approved_this = v.approved_this;
            approved_next = v.approved_next;
          })
    | inr (s, n) ↦ rw (e, n) v
  ]
  | inr e ↦ rw e v
]

add_witness-IsValid :
    (t : Tracker) (utc : Instant) (a : ApprovalValidated)
    → IsValid t
    → IsValid (add_witness t utc a)
unfolding add_witness
add_witness-IsValid t utc a v = elim (Bool-cases (HashMap.contains_key a.validator t.witness)) [
  | inl e ↦ rw e v
  | inr e ↦ rw e (record {
    distinct = IsMap-insert a.validator (a, utc) t.witness v.distinct;
    own = AllPairs-insert _ a.validator (a, utc) t.witness refl v.own;
    stakes_small = v.stakes_small;
    total_this = v.total_this;
    total_next = v.total_next;
    approved_this = omega (
      arith,
      v.approved_this,
      approved-insert this_epoch t.account_id_to_stakes a.validator (a, utc) t.witness e,
    );
    approved_next = omega (
      arith,
      v.approved_next,
      approved-insert next_epoch t.account_id_to_stakes a.validator (a, utc) t.witness e,
    );
  })
]

-- `process_approval` keeps the accounts of a tracker right: the approved stakes stay those of
-- the witnesses, up to the wrap-around, also when an account approves again.
pub process_approval-IsValid :
    (t : Tracker) (now utc : Instant) (a : ApprovalValidated)
    → IsValid t
    → IsValid (process_approval t now utc a).0
unfolding process_approval
process_approval-IsValid t now utc a v =
    get_block_production_readiness-IsValid (add_witness t utc a) now (add_witness-IsValid t utc a v)

stakes_of_small :
    (m : List (Address × Stakes)) (a : Address)
    → AllPairs (λ b s. (s.0 < 2 ^ 128) × (s.1 < 2 ^ 128)) m
    → ((stakes_of m a).0 < 2 ^ 128) × ((stakes_of m a).1 < 2 ^ 128)
stakes_of_small m a small = elim (Option-cases (HashMap.lookup a m)) [
  | inl n ↦ rw (n, stakes_of) (omega arith, omega arith)
  | inr (s, n) ↦ rw (n, stakes_of) (AllPairs-lookup _ a m s small n)
]

-- `withdraw_approval` keeps the accounts of a tracker right: the approved stakes stay those of
-- the witnesses, up to the wrap-around.
pub withdraw_approval-IsValid :
    (t : Tracker) (a : Address) → IsValid t → IsValid (withdraw_approval t a)
unfolding withdraw_approval
withdraw_approval-IsValid t a v = elim (Option-cases (HashMap.lookup a t.witness)) [
  | inl n ↦ rw (n, withdraw_approval) v
  | inr (w, n) ↦
      let held = contains_key-lookup a t.witness w n in
      let own : w.0.validator ≡ a = AllPairs-lookup _ a t.witness w v.own n in
      let small = stakes_of_small t.account_id_to_stakes a v.stakes_small in
      rw (n, withdraw_approval, own)
        (record {
          distinct = IsMap-remove a t.witness v.distinct;
          own = AllPairs-remove _ a t.witness v.own;
          stakes_small = v.stakes_small;
          total_this = v.total_this;
          total_next = v.total_next;
          approved_this = omega (
            arith,
            v.approved_this,
            small.0,
            approved-remove this_epoch t.account_id_to_stakes a t.witness v.distinct held,
          );
          approved_next = omega (
            arith,
            v.approved_next,
            small.1,
            approved-remove next_epoch t.account_id_to_stakes a t.witness v.distinct held,
          );
        })
]

lookup_removed :
    (k a : Address) (m : List (Address × Stakes))
    → (k == a) ≡ false
    → stakes_of (HashMap.remove k m) a ≡ stakes_of m a
lookup_removed k a m n = rw (HashMap.lookup-remove k a m, n, stakes_of)

approved-remove_stakes :
    {W : Type 0} (pick : Pick) (m : List (Address × Stakes)) (k : Address) (ws : List (Address × W))
    → HashMap.contains_key k ws ≡ false
    → approved pick (HashMap.remove k m) ws ≡ approved pick m ws
approved-remove_stakes pick m k [] h = refl
approved-remove_stakes pick m k ((a, w) ∷ ws) h =
    rw (lookup_removed k a m (ground arith), approved-remove_stakes pick m k ws (ground arith))

total-remove :
    (pick : Pick) (m : List (Address × Stakes)) (k : Address)
    → pick (0, 0) ≡ 0
    → pick (stakes_of m k) + total pick (HashMap.remove k m) ≤ total pick m
total-remove pick [] k z = omega arith
total-remove pick ((a, s) ∷ m) k z = elim (Bool-cases (a == k)) [
  | inl e ↦ rw (e, stakes_of) (omega (arith, total-remove pick m k z))
  | inr e ↦ rw (e, stakes_of) (omega (arith, total-remove pick m k z))
]

-- The witnesses have no more stake than all accounts.
pub approved-le-total :
    {W : Type 0} (pick : Pick) (ws : List (Address × W)) (m : List (Address × Stakes))
    → pick (0, 0) ≡ 0
    → IsMap ws
    → approved pick m ws ≤ total pick m
approved-le-total pick [] m z h = omega arith
approved-le-total pick ((a, w) ∷ ws) m z h = omega (
  arith,
  total-remove pick m a z,
  approved-remove_stakes pick m a ws h.0,
  approved-le-total pick ws (HashMap.remove a m) z h.1,
)

-- For a tracker with right accounts in the mode `TwoThirds`, where twice the total stake of
-- each epoch fits a `u128`, a block is ready just when the witnesses hold more than two thirds
-- of this epoch's stake, and of the next epoch's unless that is none.
pub ready_iff :
    (t : Tracker) (now : Instant)
    → IsValid t
    → t.threshold_mode ≡ two_thirds
    → 2 * total this_epoch t.account_id_to_stakes < 2 ^ 128
    → 2 * total next_epoch t.account_id_to_stakes < 2 ^ 128
    → ((get_block_production_readiness t now).1 ≢ not_ready) ↔ (
        (2 * total this_epoch t.account_id_to_stakes
          < 3 * approved this_epoch t.account_id_to_stakes t.witness)
        × ((2 * total next_epoch t.account_id_to_stakes
              < 3 * approved next_epoch t.account_id_to_stakes t.witness)
            ⊎ (total next_epoch t.account_id_to_stakes ≡ 0)))
unfolding get_block_production_readiness is_over_threshold
ready_iff t now v mode small_this small_next =
    let m = t.account_id_to_stakes in
    let le_this = approved-le-total this_epoch t.witness m refl v.distinct in
    let le_next = approved-le-total next_epoch t.witness m refl v.distinct in
    (
      λ r.
          ground
            (arith, v.total_this, v.total_next, v.approved_this, v.approved_next, le_this, le_next),
      λ r e.
          ground
            (arith, v.total_this, v.total_next, v.approved_this, v.approved_next, le_this, le_next),
    )
