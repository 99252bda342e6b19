-- ===== src/Base/Sequences.antt =====
-- Sequences as fixed-size arrays: checked writes, slices and the position of a test.
use Prim.Native.Nat.{ℕ, zero, suc}
use mathlib.Core.Path.{◌≡◌, refl, ap}
use mathlib.Core.List.{List, [], ◌∷◌, ◌++◌}
use mathlib.Core.Option.{Option, none, some}
use mathlib.Core.Option
use tempo_zk_rollup.Base.Lists.{length}

module _ {ℓ} {A : Type ℓ} where
  -- `xs[i] = v`; `none` is the panic of an index out of bounds.
  pub set? : List A → ℕ → A → Option (List A)
  set? [] i v = none
  set? (x ∷ xs) zero v = some (v ∷ xs)
  set? (x ∷ xs) (suc i) v = Option.map (λ t. x ∷ t) (set? xs i v)

  pub set?-append :
      (xs : List A) (y v : A) (ys : List A)
      → set? (xs ++ y ∷ ys) (length xs) v ≡ some (xs ++ v ∷ ys)
  unfolding set?
  set?-append [] y v ys = refl
  set?-append (x ∷ xs) y v ys = ap (Option.map (λ t. x ∷ t)) (set?-append xs y v ys)
