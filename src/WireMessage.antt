-- ===== src/WireMessage.antt =====
-- Versioned messages: the trait of pkg/wire-message/src/lib.rs, less the bytes, which are those of
-- borsh.
use tempo_zk_rollup.Base.{
  ℕ, zero, suc, ◌+◌, ◌≤◌, ◌<◌, ◌≡◌, refl, ap, inl, inr, Option, none, some, ltb, ltb→lt,
  if◌then◌else◌, Bool-cases, arith,
}

-- `ErrorKind`.
pub data ErrorKind (Err : Type 0) : Type 0 where
  serialize : ErrorKind Err
  deserialize : ErrorKind Err
  upgrade_failed : Err → ErrorKind Err
  max_version_reached : ℕ → ErrorKind Err

pub data WireResult (Err A : Type 0) : Type 0 where
  ok : A → WireResult Err A
  err : ErrorKind Err → WireResult Err A

-- `WireMessage`. The context is changed by an upgrade; an upgrade that succeeds gives the next
-- version, and there is none at the highest.
pub record WireMessage (M Ctx Err : Type 0) : Type 0 where
  pub max_version : ℕ
  pub version : M → ℕ
  pub upgrade_once : Ctx → M → Ctx × WireResult Err M
  pub version-upgrade_once :
      (c : Ctx) (m m' : M) → (upgrade_once c m).1 ≡ ok m' → version m' ≡ version m + 1
  pub version_bound : (m : M) → version m ≤ max_version

-- `max_version_error`.
abbrev pub max_version_error : {M Ctx Err : Type 0} → WireMessage M Ctx Err → ErrorKind Err
max_version_error w = max_version_reached w.max_version

module _ {M Ctx Err : Type 0} (w : WireMessage M Ctx Err) where
  -- The rest of the loop of `upgrade` after a call of `upgrade_once`.
  abbrev pub after_upgrade_once :
      (Ctx → M → Option (Ctx × WireResult Err M))
      → Ctx × WireResult Err M
      → Option (Ctx × WireResult Err M)
  after_upgrade_once next (c, ok m) = next c m
  after_upgrade_once next (c, err e) = some (c, err e)

  -- `upgrade`, on fuel: without fuel there is no result.
  unfoldable pub upgrade : ℕ → Ctx → M → Option (Ctx × WireResult Err M)
  upgrade zero c m = none
  upgrade (suc fuel) c m =
      let rest = after_upgrade_once (λ c' m'. upgrade fuel c' m') (w.upgrade_once c m) in
      if ltb (w.version m) w.max_version then rest else some (c, ok m)

  -- A message of the highest version, or the error of an upgrade.
  abbrev pub IsUpgraded : WireResult Err M → Type 0
  IsUpgraded (ok m) = w.version m ≡ w.max_version
  IsUpgraded (err e) =
      (c : Ctx) × (m : M) × (c' : Ctx) × (w.upgrade_once c m ≡ (c', err e))
      × (w.version m < w.max_version)

  -- `upgrade` of a message returns within one round for each version from its own to the
  -- highest and one more. It gives a message of the highest version, or the error with which
  -- `upgrade_once` fails on a message of a lower version.
  pub upgrade_lem :
      (fuel : ℕ) (c : Ctx) (m : M)
      → w.max_version < w.version m + fuel
      → (r : Ctx × WireResult Err M) × (upgrade fuel c m ≡ some r) × IsUpgraded r.1
  unfolding upgrade
  upgrade_lem zero c m h = absurd (omega (arith, w.version_bound m))
  upgrade_lem (suc fuel) c m h = elim (Bool-cases (ltb (w.version m) w.max_version)) [
    | inl t ↦
        rw (upgrade, t)
          (round (λ c' m' n. upgrade_lem fuel c' m' (omega (arith, h, n)))
            (ltb→lt (w.version m) w.max_version t) (w.upgrade_once c m) refl)
    | inr f ↦ ((c, ok m), rw (upgrade, f), ground (arith, w.version_bound m))
  ]
    where
      round :
          ((c' : Ctx) (m' : M)
            → w.version m' ≡ w.version m + 1
            → (s : Ctx × WireResult Err M) × (upgrade fuel c' m' ≡ some s) × IsUpgraded s.1)
          → w.version m < w.max_version
          → (r : Ctx × WireResult Err M) → w.upgrade_once c m ≡ r
          → (s : Ctx × WireResult Err M) × (after_upgrade_once (λ c' m'. upgrade fuel c' m') r
              ≡ some s)
            × IsUpgraded s.1
      round rest b (c', ok m') q = rest c' m' (w.version-upgrade_once c m m' (ap (λ r. r.1) q))
      round rest b (c', err e) q = ((c', err e), refl, (c, m, c', q, b))
