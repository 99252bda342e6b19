-- ===== src/BlockStore/Bytes.antt =====
-- `to_be_bytes` and `from_be_bytes` of the standard library, and the order of byte strings, as
-- pkg/block-store uses them.
use tempo_zk_rollup.Base.{
  ℕ, zero, suc, ◌+◌, ◌*◌, ◌/◌, ◌%◌, ◌^◌, ◌<◌, ◌≡◌, refl, sym, ◌∙◌, Bool, true, false, not, ◌&&◌,
  ◌||◌, List, [], ◌∷◌, ◌++◌, length, length-append, ltb, ◌==◌, if◌then◌else◌, arith,
}

abbrev pub Bytes : Type 0
Bytes = List ℕ

-- The lowest `n` bytes of a number, the highest of them first.
unfoldable pub to_be_bytes : ℕ → ℕ → Bytes
to_be_bytes zero x = []
to_be_bytes (suc n) x = to_be_bytes n (x / 256) ++ x % 256 ∷ []

unfoldable pub from_be : ℕ → Bytes → ℕ
from_be acc [] = acc
from_be acc (b ∷ bs) = from_be (acc * 256 + b) bs

-- `from_be_bytes`.
abbrev pub from_be_bytes : Bytes → ℕ
from_be_bytes bs = from_be 0 bs

-- The order of `[u8]`, which is that of the database.
abbrev pub bytes_lt : Bytes → Bytes → Bool
bytes_lt [] [] = false
bytes_lt [] (b ∷ bs) = true
bytes_lt (a ∷ as') [] = false
bytes_lt (a ∷ as') (b ∷ bs) =
    let rest = bytes_lt as' bs in if ltb a b then true else (if a == b then rest else false)

-- The number has at most `n` bytes.
abbrev pub HasBytes : ℕ → ℕ → Type 0
HasBytes zero x = x ≡ 0
HasBytes (suc n) x = HasBytes n (x / 256)

pub length-to_be_bytes : (n x : ℕ) → length (to_be_bytes n x) ≡ n
unfolding to_be_bytes
length-to_be_bytes zero x = refl
length-to_be_bytes (suc n) x =
    omega (
      arith,
      length-append (to_be_bytes n (x / 256)) (x % 256 ∷ []),
      length-to_be_bytes n (x / 256),
    )

from_be-append : (acc : ℕ) (xs ys : Bytes) → from_be acc (xs ++ ys) ≡ from_be (from_be acc xs) ys
unfolding from_be
from_be-append acc [] ys = refl
from_be-append acc (x ∷ xs) ys = from_be-append (acc * 256 + x) xs ys

-- Reading back what was written.
pub from_be_bytes-to_be_bytes : (n x : ℕ) → HasBytes n x → from_be_bytes (to_be_bytes n x) ≡ x
unfolding to_be_bytes from_be
from_be_bytes-to_be_bytes zero x h = sym h
from_be_bytes-to_be_bytes (suc n) x h =
    from_be-append 0 (to_be_bytes n (x / 256)) (x % 256 ∷ [])
    ∙ omega (arith, from_be_bytes-to_be_bytes n (x / 256) h)

pub u64-HasBytes : (x : ℕ) → x < 2 ^ 64 → HasBytes 8 x
u64-HasBytes x h = omega arith

bytes_lt-snoc :
    (xs ys : Bytes) (a b : ℕ)
    → length xs ≡ length ys
    → bytes_lt (xs ++ a ∷ []) (ys ++ b ∷ []) ≡ (bytes_lt xs ys || (not (bytes_lt ys xs) && ltb a b))
bytes_lt-snoc [] [] a b l = ground arith
bytes_lt-snoc [] (y ∷ ys) a b l = absurd (omega arith)
bytes_lt-snoc (x ∷ xs) [] a b l = absurd (omega arith)
bytes_lt-snoc (x ∷ xs) (y ∷ ys) a b l = ground (arith, bytes_lt-snoc xs ys a b (omega arith))

-- Big-endian numbers are in the order of the numbers.
pub bytes_lt-to_be_bytes :
    (n x y : ℕ)
    → HasBytes n x
    → HasBytes n y
    → bytes_lt (to_be_bytes n x) (to_be_bytes n y) ≡ ltb x y
unfolding to_be_bytes
bytes_lt-to_be_bytes zero x y h k = ground arith
bytes_lt-to_be_bytes (suc n) x y h k =
    bytes_lt-snoc (to_be_bytes n (x / 256)) (to_be_bytes n (y / 256)) (x % 256) (y % 256)
      (length-to_be_bytes n (x / 256) ∙ sym (length-to_be_bytes n (y / 256)))
    ∙ rw
        (
          bytes_lt-to_be_bytes n (x / 256) (y / 256) h k,
          bytes_lt-to_be_bytes n (y / 256) (x / 256) k h,
        )
        (ground arith)

-- Next after a string, among the strings of its length, comes what is greater than it.
pub bytes_lt-successor :
    (xs ys : Bytes) → length xs ≡ length ys → bytes_lt xs (ys ++ 0 ∷ []) ≡ not (bytes_lt ys xs)
bytes_lt-successor [] [] l = refl
bytes_lt-successor [] (y ∷ ys) l = absurd (omega arith)
bytes_lt-successor (x ∷ xs) [] l = absurd (omega arith)
bytes_lt-successor (x ∷ xs) (y ∷ ys) l = ground (arith, bytes_lt-successor xs ys (omega arith))
