-- ===== src/Base/HashMap.antt =====
-- `HashMap` as an association list without an order; a key type brings its equality.
use Prim.Native.Nat.{ℕ}
use mathlib.Core.Path.{◌≡◌, refl}
use mathlib.Core.Logic.{◌↔◌}
use mathlib.Core.Bool.{Bool, true, false, ◌||◌}
use mathlib.Core.List.{List, [], ◌∷◌}
use mathlib.Core.Option.{Option, none, some}
use native.Mathlib.Omega.{arith}
use tempo_zk_rollup.Base.Tests.{◌==◌ as nat_beq, if◌then◌else◌}

pub record Eq (K : Type 0) : Type 0 where
  pub beq : K → K → Bool
  pub beq_iff : (a b : K) → (beq a b ≡ true) ↔ (a ≡ b)

pub nat_beq_iff : (a b : ℕ) → (nat_beq a b ≡ true) ↔ (a ≡ b)
nat_beq_iff a b = ground arith

instance abbrev pub nat_eq : Eq ℕ
nat_eq = record { beq = nat_beq; beq_iff = nat_beq_iff }

module _ {K : Type 0} ⦃e : Eq K⦄ {V : Type 0} where
  abbrev pub lookup : K → List (K × V) → Option V
  lookup k [] = none
  lookup k ((j, v) ∷ m) = let rest = lookup k m in if e.beq j k then some v else rest

  abbrev pub contains_key : K → List (K × V) → Bool
  contains_key k [] = false
  contains_key k ((j, v) ∷ m) = e.beq j k || contains_key k m

  -- A key that is there gets the new value at its place.
  abbrev pub insert : K → V → List (K × V) → List (K × V)
  insert k v [] = (k, v) ∷ []
  insert k v ((j, w) ∷ m) =
      let rest = insert k v m in if e.beq j k then (k, v) ∷ m else (j, w) ∷ rest

  abbrev pub remove : K → List (K × V) → List (K × V)
  remove k [] = []
  remove k ((j, w) ∷ m) = let rest = remove k m in if e.beq j k then rest else (j, w) ∷ rest

  -- `retain` by a test of the key.
  abbrev pub retain : (K → Bool) → List (K × V) → List (K × V)
  retain keep [] = []
  retain keep ((j, w) ∷ m) = let rest = retain keep m in if keep j then (j, w) ∷ rest else rest

  pub lookup-insert :
      (k j : K) (v : V) (m : List (K × V))
      → lookup j (insert k v m) ≡ (if e.beq k j then some v else lookup j m)
  lookup-insert k j v [] = refl
  lookup-insert k j v ((i, w) ∷ m) =
      ground (arith, e.beq_iff i k, e.beq_iff k j, e.beq_iff i j, lookup-insert k j v m)

  pub lookup-remove :
      (k j : K) (m : List (K × V))
      → lookup j (remove k m) ≡ (if e.beq k j then none else lookup j m)
  lookup-remove k j [] = ground arith
  lookup-remove k j ((i, w) ∷ m) =
      ground (arith, e.beq_iff i k, e.beq_iff k j, e.beq_iff i j, lookup-remove k j m)

  pub contains_key-lookup :
      (k : K) (m : List (K × V)) (v : V) → lookup k m ≡ some v → contains_key k m ≡ true
  contains_key-lookup k [] v h = cc
  contains_key-lookup k ((i, w) ∷ m) v h = ground (arith, contains_key-lookup k m v)

  pub lookup-none : (k : K) (m : List (K × V)) → contains_key k m ≡ false → lookup k m ≡ none
  lookup-none k [] h = refl
  lookup-none k ((i, w) ∷ m) h = ground (arith, lookup-none k m)

  -- Every value, under its key.
  abbrev pub AllPairs {κ} : (K → V → Type κ) → List (K × V) → Type κ
  AllPairs P [] = Unit
  AllPairs P ((k, v) ∷ m) = P k v × AllPairs P m

  pub AllPairs-insert {κ} :
      (P : K → V → Type κ) (k : K) (v : V) (m : List (K × V))
      → P k v
      → AllPairs P m
      → AllPairs P (insert k v m)
  AllPairs-insert P k v [] p h = (p, tt)
  AllPairs-insert P k v ((j, w) ∷ m) p h = ground (arith, AllPairs-insert P k v m p h.1)

  pub AllPairs-remove {κ} :
      (P : K → V → Type κ) (k : K) (m : List (K × V)) → AllPairs P m → AllPairs P (remove k m)
  AllPairs-remove P k [] h = tt
  AllPairs-remove P k ((j, w) ∷ m) h = ground (arith, AllPairs-remove P k m h.1)

  pub AllPairs-lookup {κ} :
      (P : K → V → Type κ) (k : K) (m : List (K × V)) (v : V)
      → AllPairs P m
      → lookup k m ≡ some v
      → P k v
  AllPairs-lookup P k [] v h l = cc
  AllPairs-lookup P k ((j, w) ∷ m) v h l =
      ground (arith, AllPairs-lookup P k m v h.1, e.beq_iff j k)

  pub contains_key-insert :
      (k j : K) (v : V) (m : List (K × V))
      → contains_key j (insert k v m) ≡ (e.beq k j || contains_key j m)
  contains_key-insert k j v [] = refl
  contains_key-insert k j v ((i, w) ∷ m) =
      ground (arith, e.beq_iff i k, e.beq_iff k j, e.beq_iff i j, contains_key-insert k j v m)

  pub contains_key-remove :
      (k j : K) (m : List (K × V))
      → contains_key j (remove k m) ≡ (if e.beq k j then false else contains_key j m)
  contains_key-remove k j [] = ground arith
  contains_key-remove k j ((i, w) ∷ m) =
      ground (arith, e.beq_iff i k, e.beq_iff k j, e.beq_iff i j, contains_key-remove k j m)

  pub contains_key-none : (k : K) (m : List (K × V)) → lookup k m ≡ none → contains_key k m ≡ false
  contains_key-none k [] h = refl
  contains_key-none k ((i, w) ∷ m) h = ground (arith, contains_key-none k m)
