-- ===== src/Base/Filters.antt =====
-- `filter`, `map` and `take` with the other operations of lists.
use Prim.Native.Nat.{ℕ, zero, suc}
use mathlib.Core.Path.{◌≡◌, refl, sym, ap}
use mathlib.Core.Option.{Option, none, some}
use mathlib.Core.Bool.{Bool, true, false}
use mathlib.Core.List.{List, [], ◌∷◌, ◌++◌, map, map-append, append-nil, reverse, reverse-cons}
use native.Mathlib.Omega.{arith}
use tempo_zk_rollup.Base.Tests.{if◌then◌else◌}
use tempo_zk_rollup.Base.Lists.{All, filter, take}

pub map-reverse : {A C : Type 0} (f : A → C) (xs : List A) → map f (reverse xs) ≡ reverse (map f xs)
map-reverse f [] = refl
map-reverse f (x ∷ xs) =
    rw (reverse-cons x xs, reverse-cons (f x) (map f xs), map-append f (reverse xs) (x ∷ []))
      (ap (λ t. t ++ f x ∷ []) (map-reverse f xs))

module _ {A : Type 0} where
  pub filter-append :
      (f : A → Bool) (xs ys : List A) → filter f (xs ++ ys) ≡ filter f xs ++ filter f ys
  filter-append f [] ys = refl
  filter-append f (x ∷ xs) ys = ground (arith, filter-append f xs ys)

  pub filter-reverse : (f : A → Bool) (xs : List A) → filter f (reverse xs) ≡ reverse (filter f xs)
  filter-reverse f [] = refl
  filter-reverse f (x ∷ xs) =
      rw (reverse-cons x xs, filter-append f (reverse xs) (x ∷ []), filter-reverse f xs)
        (kept (f x))
    where
      kept :
          (b : Bool)
          → reverse (filter f xs) ++ (if b then x ∷ [] else [])
            ≡ reverse (if b then x ∷ filter f xs else filter f xs)
      kept true = sym (reverse-cons x (filter f xs))
      kept false = append-nil (reverse (filter f xs))

  pub filter_cong :
      (f g : A → Bool) (xs : List A) → ((x : A) → f x ≡ g x) → filter f xs ≡ filter g xs
  filter_cong f g [] h = refl
  filter_cong f g (x ∷ xs) h = ground (arith, h x, filter_cong f g xs h)

  pub filter_all : (xs : List A) → filter (λ x. true) xs ≡ xs
  filter_all [] = refl
  filter_all (x ∷ xs) = ap (λ t. x ∷ t) (filter_all xs)

  pub take-map :
      {C : Type 0} (f : A → C) (n : ℕ) (xs : List A) → take n (map f xs) ≡ map f (take n xs)
  take-map f zero xs = refl
  take-map f (suc n) [] = refl
  take-map f (suc n) (x ∷ xs) = ap (λ t. f x ∷ t) (take-map f n xs)

abbrev pub filter_map : {A C : Type 0} → (A → Option C) → List A → List C
filter_map f [] = []
filter_map f (x ∷ xs) = let rest = filter_map f xs in elim (f x) [ none ↦ rest | some c ↦ c ∷ rest ]

pub filter_map-some :
    {A C : Type 0} (f : A → Option C) (x : A) (c : C) (xs : List A)
    → f x ≡ some c
    → filter_map f (x ∷ xs) ≡ c ∷ filter_map f xs
filter_map-some f x c xs h = rw (filter_map, h)

pub filter_map-none :
    {A C : Type 0} (f : A → Option C) (x : A) (xs : List A)
    → f x ≡ none
    → filter_map f (x ∷ xs) ≡ filter_map f xs
filter_map-none f x xs h = rw (filter_map, h)

pub All-filter :
    {A : Type 0} (P : A → Type 0) (f : A → Bool) (xs : List A) → All P xs → All P (filter f xs)
All-filter P f [] h = tt
All-filter P f (x ∷ xs) h = kept (f x) (All-filter P f xs h.1)
  where
    kept : (b : Bool) → All P (filter f xs) → All P (if b then x ∷ filter f xs else filter f xs)
    kept true r = (h.0, r)
    kept false r = r
