-- ===== src/Node/BlockCache/Heights.antt =====
-- The heights that `confirm` and `is_out_of_sync` of pkg/node/src/cache.rs keep and ask for.
use tempo_zk_rollup.Base.{
  ℕ, zero, suc, ◌+◌, ◌-◌, ◌≤◌, ◌<◌, ◌≡◌, refl, ap, ◌∙◌, ◌⊎◌, inl, inr, ◌↔◌, Bool, true, false, not,
  ◌&&◌, ◌||◌, List, [], ◌∷◌, none, some, ltb, leb, if◌then◌else◌, ◌==◌, arith, Bool-cases,
  Option-cases, some_injective, subst,
}
use tempo_zk_rollup.Base.TreeMap
use tempo_zk_rollup.Base.HashMap
use tempo_zk_rollup.Base.HashMap.{nat_eq}
use tempo_zk_rollup.Doomslug.Approval.{BlockHeight, CryptoHash}
use tempo_zk_rollup.Node.BlockCache.{
  BlockCache, last, remove_below, confirm, missing, is_out_of_sync,
}

remove_below-heights :
    (height : BlockHeight) (xs : List (BlockHeight × CryptoHash)) (c : BlockCache) (h : BlockHeight)
    → TreeMap.contains_key h (remove_below height xs c).block_hash_heights ≡ (
        TreeMap.contains_key h c.block_hash_heights
        && not (ltb h height && TreeMap.contains_key h xs))
unfolding remove_below
remove_below-heights height [] c h = ground arith
remove_below-heights height ((j, hash) ∷ xs) c h = elim (Bool-cases (ltb j height)) [
  | inl e ↦ rw e (
      remove_below-heights height xs (dropped c) h
      ∙ ap (λ b. b && not (ltb h height && TreeMap.contains_key h xs))
          (TreeMap.contains_key-remove j h c.block_hash_heights)
      ∙ gone (TreeMap.contains_key h c.block_hash_heights) (TreeMap.contains_key h xs) e)
  | inr e ↦ rw e (
      remove_below-heights height xs c h
      ∙ stays (TreeMap.contains_key h c.block_hash_heights) (TreeMap.contains_key h xs) e)
]
  where
    dropped : BlockCache → BlockCache
    dropped c = record c {
      block_hash_heights = TreeMap.remove j c.block_hash_heights;
      blocks = HashMap.remove hash c.blocks;
    }

    gone :
        (a x : Bool)
        → ltb j height ≡ true
        → ((if j == h then false else a) && not (ltb h height && x))
          ≡ (a && not (ltb h height && (j == h || x)))
    gone a x e = ground arith

    stays :
        (a x : Bool)
        → ltb j height ≡ false
        → (a && not (ltb h height && x)) ≡ (a && not (ltb h height && (j == h || x)))
    stays a x e = ground arith

-- After `confirm` the cache has no height below the confirmed one, and of the others just those
-- that it had.
pub confirm-heights :
    (height : BlockHeight) (c : BlockCache) (h : BlockHeight)
    → TreeMap.contains_key h (confirm height c).block_hash_heights
      ≡ (leb height h && TreeMap.contains_key h c.block_hash_heights)
unfolding confirm
confirm-heights height c h =
    remove_below-heights height c.block_hash_heights (record c { height = height }) h
    ∙ split (TreeMap.contains_key h c.block_hash_heights)
  where
    split : (b : Bool) → (b && not (ltb h height && b)) ≡ (leb height h && b)
    split b = ground arith

remove_below-height :
    (height : BlockHeight) (m : List (BlockHeight × CryptoHash)) (c : BlockCache)
    → (remove_below height m c).height ≡ c.height
unfolding remove_below
remove_below-height height [] c = refl
remove_below-height height ((h, hash) ∷ rest) c = ground (
  arith,
  remove_below-height height rest c,
  remove_below-height height rest (record c {
    block_hash_heights = TreeMap.remove h c.block_hash_heights;
    blocks = HashMap.remove hash c.blocks;
  }),
)

pub confirm-height : (height : BlockHeight) (c : BlockCache) → (confirm height c).height ≡ height
unfolding confirm
confirm-height height c =
    remove_below-height height c.block_hash_heights (record c { height = height })

pub confirm_below :
    (height : BlockHeight) (c : BlockCache) (h : BlockHeight)
    → h < height
    → TreeMap.contains_key h (confirm height c).block_hash_heights ≡ false
confirm_below height c h below = confirm-heights height c h ∙ ground arith

missing_iff :
    (n : ℕ) (h : BlockHeight) (m : List (BlockHeight × CryptoHash))
    → (missing n h m ≡ false)
      ↔ ((j : BlockHeight) → h ≤ j → j < h + n → TreeMap.contains_key j m ≡ true)
missing_iff zero h m = (λ e j a b. absurd (omega arith), λ f. refl)
missing_iff (suc n) h m =
    let (to, from) = missing_iff n (h + 1) m in
    (
      λ e j a b. elim (at_or_above j a) [
        | inl p ↦ subst (λ i. TreeMap.contains_key i m ≡ true) p (ground arith)
        | inr p ↦ to (ground arith) j p (omega arith)
      ],
      λ f. both (f h (omega arith) (omega arith)) (from (λ j a b. f j (omega arith) (omega arith))),
    )
  where
    at_or_above : (j : ℕ) → h ≤ j → (h ≡ j) ⊎ (h + 1 ≤ j)
    at_or_above j a = omega arith

    both : {b c : Bool} → b ≡ true → c ≡ false → (not b || c) ≡ false
    both p q = ground arith

-- `is_out_of_sync` answers `false` just when the cache has a last height, no lower than the
-- largest seen, and every height above the confirmed one up to the largest seen.
pub is_out_of_sync_iff :
    (c : BlockCache)
    → (is_out_of_sync c ≡ some false) ↔ (
        (x : BlockHeight × CryptoHash) × (last c.block_hash_heights ≡ some x)
        × (c.max_height ≤ x.0)
        × ((j : BlockHeight)
            → c.height < j
            → j ≤ c.max_height
            → TreeMap.contains_key j c.block_hash_heights ≡ true))
unfolding is_out_of_sync
is_out_of_sync_iff c =
    let (to, from) = missing_iff (c.max_height - c.height) (c.height + 1) c.block_hash_heights in
    (
      λ e. elim (Option-cases (last c.block_hash_heights)) [
        | inl n ↦ absurd (none≢some (rw (n, is_out_of_sync) at e))
        | inr (x, n) ↦
            let (a, b) = neither _ _ (some_injective (rw (n, is_out_of_sync) at e)) in
            (x, n, ground arith, λ j p q. to b j (omega arith) (omega arith))
      ],
      λ t.
          rw (t.1, is_out_of_sync)
            (ap some (nor _ _ (not_below t.2) (from (λ j p q. t.3 j (omega arith) (omega arith))))),
    )
  where
    none≢some : {A : Type 0} {y : A} → none ≡ some y → ⊥
    none≢some q = cc

    neither : (a b : Bool) → (a || b) ≡ false → (a ≡ false) × (b ≡ false)
    neither a b h = ground arith

    nor : (a b : Bool) → a ≡ false → b ≡ false → (a || b) ≡ false
    nor a b p q = ground arith

    not_below : {m n : ℕ} → m ≤ n → ltb n m ≡ false
    not_below l = ground arith
