-- ===== src/Smirk/Bits.antt =====
-- pkg/zk-primitives/src/element/lsb.rs: the least significant bits of an element, which are its
-- path in a tree, and the order of bit vectors.
use tempo_zk_rollup.Base.{
  ℕ, zero, suc, ◌+◌, ◌/◌, ◌%◌, ◌^◌, ◌≡◌, refl, ap, Bool, true, false, List, [], ◌∷◌, arith, ◌==◌,
  length, get_elem?, drop, some, ◌&&◌,
}

-- An element is the number that its `U256` holds.
abbrev pub Element : Type 0
Element = ℕ

abbrev pub Bits : Type 0
Bits = List Bool

-- `NULL_HASH`, which is also `ZERO`.
abbrev pub null_hash : Element
null_hash = 0

-- `Element::lsb`: the last `count` bits of the big-endian representation, the highest first.
-- With a `count` above 256, as in a tree deeper than 257, a slice of the result panics there.
unfoldable pub lsb : Element → ℕ → Bits
lsb e zero = []
lsb e (suc n) = (e / 2 ^ n % 2 == 1) ∷ lsb e n

pub length-lsb : (e : Element) (n : ℕ) → length (lsb e n) ≡ n
unfolding lsb
length-lsb e zero = refl
length-lsb e (suc n) = ap suc (length-lsb e n)

abbrev pub bit_eq : Bool → Bool → Bool
bit_eq true b = b
bit_eq false true = false
bit_eq false false = true

-- Equality of bit slices.
abbrev pub bits_eq : Bits → Bits → Bool
bits_eq [] [] = true
bits_eq [] (b ∷ bs) = false
bits_eq (a ∷ as') [] = false
bits_eq (a ∷ as') (b ∷ bs) = bit_eq a b && bits_eq as' bs

-- The lexicographic order of bit slices, `false` before `true`.
abbrev pub bits_lt : Bits → Bits → Bool
bits_lt as' [] = false
bits_lt [] (b ∷ bs) = true
bits_lt (false ∷ as') (true ∷ bs) = true
bits_lt (true ∷ as') (false ∷ bs) = false
bits_lt (false ∷ as') (false ∷ bs) = bits_lt as' bs
bits_lt (true ∷ as') (true ∷ bs) = bits_lt as' bs

pub bits_eq→eq : (a b : Bits) → bits_eq a b ≡ true → a ≡ b
bits_eq→eq [] [] h = refl
bits_eq→eq [] (b ∷ bs) h = cc
bits_eq→eq (a ∷ as') [] h = cc
bits_eq→eq (true ∷ as') (true ∷ bs) h = ap (λ t. true ∷ t) (bits_eq→eq as' bs h)
bits_eq→eq (true ∷ as') (false ∷ bs) h = cc
bits_eq→eq (false ∷ as') (true ∷ bs) h = cc
bits_eq→eq (false ∷ as') (false ∷ bs) h = ap (λ t. false ∷ t) (bits_eq→eq as' bs h)

pub bits_eq_refl : (a : Bits) → bits_eq a a ≡ true
bits_eq_refl [] = refl
bits_eq_refl (true ∷ a) = bits_eq_refl a
bits_eq_refl (false ∷ a) = bits_eq_refl a

pub drop-eq_of_get_elem? :
    (b : Bits) (i : ℕ) {v : Bool} → get_elem? b i ≡ some v → drop i b ≡ v ∷ drop (suc i) b
drop-eq_of_get_elem? [] i h = cc
drop-eq_of_get_elem? (x ∷ b) zero {v} h = ground arith
drop-eq_of_get_elem? (x ∷ b) (suc i) h = drop-eq_of_get_elem? b i h

pub get_elem?-IsSome :
    (b : Bits) (i k : ℕ) → length b ≡ i + suc k → (v : Bool) × (get_elem? b i ≡ some v)
get_elem?-IsSome [] i k h = absurd (omega arith)
get_elem?-IsSome (x ∷ b) zero k h = (x, refl)
get_elem?-IsSome (x ∷ b) (suc i) k h = get_elem?-IsSome b i k (omega arith)
