-- ===== src/Doomslug/Horizon.antt =====
-- `on_block` and `on_approval` of pkg/doomslug/src/doomslug.rs keep approvals only near the tip.
use tempo_zk_rollup.Base.{
  ◌+◌, ◌-◌, ◌<◌, ◌≤◌, ◌⊎◌, ◌==◌, ==→eq, if◌then◌else◌, ◌≡◌, refl, Bool, ◌&&◌, ◌||◌, List, [], ◌∷◌,
  none, some, arith, ltb, leb, Bool-cases, Option-cases, inl, inr, subst, some_injective,
}
use tempo_zk_rollup.Base.HashMap
use tempo_zk_rollup.Base.HashMap.{nat_eq, AllPairs, AllPairs-insert}
use tempo_zk_rollup.Doomslug.Approval.{
  BlockHeight, CryptoHash, Instant, ApprovalValidated, ApprovalStake,
}
use tempo_zk_rollup.Doomslug.AtHeight.{AtHeight}
use tempo_zk_rollup.Doomslug.AtHeight
use tempo_zk_rollup.Doomslug.State.{
  Doomslug, on_block, on_approval, on_approval_internal, at_height_or_new, max_heights_ahead,
  max_heights_before,
}

abbrev pub IsNear : BlockHeight → BlockHeight → AtHeight → Type 0
IsNear tip h s = (tip ≤ h + max_heights_before) × (h ≤ tip + max_heights_ahead)

-- Every tracked height lies within the horizon of the tip.
abbrev pub IsWithin : Doomslug → Type 0
IsWithin d = AllPairs (IsNear d.tip.height) d.approval_tracking

retain-IsNear :
    (height : BlockHeight) (m : List (BlockHeight × AtHeight))
    → AllPairs (IsNear height) (
        HashMap.retain
          (λ h. ltb (height - max_heights_before) h && leb h (height + max_heights_ahead))
          m)
retain-IsNear height [] = tt
retain-IsNear height ((h, s) ∷ m) = ground (arith, retain-IsNear height m)

-- After `on_block`, whatever was tracked before, every tracked height is near the new tip.
pub on_block-IsWithin :
    (d : Doomslug) (now : Instant) (hash : CryptoHash) (height final : BlockHeight)
    → IsWithin (on_block d now hash height final)
unfolding on_block
on_block-IsWithin d now hash height final = retain-IsNear height d.approval_tracking

-- Above the tip less the horizon, where the subtraction stops at 0, and not too far ahead.
abbrev pub IsKept : BlockHeight → BlockHeight → Type 0
IsKept tip h = (0 < h) × (tip < h + max_heights_before) × (h ≤ tip + max_heights_ahead)

lookup-retain :
    (keep : BlockHeight → Bool) (h : BlockHeight) (m : List (BlockHeight × AtHeight))
    → HashMap.lookup h (HashMap.retain keep m) ≡ (if keep h then HashMap.lookup h m else none)
lookup-retain keep h [] = ground arith
lookup-retain keep h ((j, s) ∷ m) = elim (Bool-cases (j == h)) [
  | inl e ↦
      subst
        (λ i.
          HashMap.lookup i (HashMap.retain keep ((j, s) ∷ m))
          ≡ (if keep i then HashMap.lookup i ((j, s) ∷ m) else none))
        (==→eq j h e) (ground (arith, lookup-retain keep j m))
  | inr e ↦ ground (arith, lookup-retain keep h m)
]

-- After `on_block` the tip is the new block, and of the approvals that were tracked just those
-- of the heights above 0 are kept, as they were, that are less than 20 below the new tip and at
-- most 10000 above it; every other height has none.
pub on_block-lookup :
    (d : Doomslug) (now : Instant) (hash : CryptoHash) (height final h : BlockHeight)
    → ((IsKept height h
          × (HashMap.lookup h (on_block d now hash height final).approval_tracking
              ≡ HashMap.lookup h d.approval_tracking))
        ⊎ (¬ IsKept height h
            × (HashMap.lookup h (on_block d now hash height final).approval_tracking ≡ none)))
      × ((on_block d now hash height final).tip ≡ record { block_hash = hash; height = height })
unfolding on_block
on_block-lookup d now hash height final h = (
  ground (
    arith,
    lookup-retain (λ h. ltb (height - max_heights_before) h && leb h (height + max_heights_ahead)) h
        d.approval_tracking,
  ),
  refl,
)

-- Where every tracked height is near the tip, this is so after `on_approval` too, unless it
-- panics, and the tip is the same.
pub on_approval-IsWithin :
    (d d' : Doomslug) (now utc : Instant) (a : ApprovalValidated)
    (stakes : List (ApprovalStake × Bool))
    → IsWithin d
    → on_approval d now utc a stakes ≡ some d'
    → IsWithin d' × (d'.tip ≡ d.tip)
unfolding on_approval on_approval_internal
on_approval-IsWithin d d' now utc a stakes within h =
    elim (Bool-cases (
      ltb a.content.target_height d.tip.height
      || ltb (d.tip.height + max_heights_ahead) a.content.target_height)) [
        | inl e ↦
            subst (λ x. IsWithin x × (x.tip ≡ d.tip)) (some_injective (rw e at h)) (within, refl)
        | inr e ↦
            elim (Option-cases (
              AtHeight.process_approval
                (at_height_or_new d.approval_tracking a.content.target_height) now utc a stakes
                d.threshold_mode)) [
                  | inl n ↦ absurd (none≢some (rw (e, n, on_approval) at h))
                  | inr ((s, r), n) ↦
                      subst (λ x. IsWithin x × (x.tip ≡ d.tip))
                        (some_injective (rw (e, n, on_approval) at h))
                        (
                          AllPairs-insert (IsNear d.tip.height) a.content.target_height s
                              d.approval_tracking (ground arith) within,
                          refl,
                        )
                ]
      ]
  where
    none≢some : {A : Type 0} {x : A} → none ≡ some x → ⊥
    none≢some q = cc
