-- ===== src/Smirk/Sort.antt =====
-- The entries of a batch sorted by their bits, as `sort_unstable_by` leaves them where no two have
-- the same bits.
use tempo_zk_rollup.Base.{
  ◌≡◌, ◌≢◌, refl, sym, ◌∙◌, ◌⊎◌, subst, true, false, List, [], ◌∷◌, All, if◌then◌else◌, Bool-cases,
  inl, inr,
}
use tempo_zk_rollup.Smirk.Bits.{Element, Bits, bits_eq, bits_eq→eq, bits_eq_refl, bits_lt}
use tempo_zk_rollup.Smirk.Node.{Entry}
use tempo_zk_rollup.Smirk.Contents.{put_over, Ascending}

insert_sorted : Entry → List Entry → List Entry
insert_sorted x [] = x ∷ []
insert_sorted x (y ∷ ys) = if bits_lt y.1 x.1 then y ∷ insert_sorted x ys else x ∷ y ∷ ys

-- `sort_unstable_by(|(_, a_bits), (_, b_bits)| a_bits.cmp(b_bits))`.
unfoldable pub sort_by_bits : List Entry → List Entry
unfolding insert_sorted
sort_by_bits [] = []
sort_by_bits (x ∷ xs) = insert_sorted x (sort_by_bits xs)

-- No two entries have the same bits.
abbrev pub IsDistinct : List Entry → Type 0
IsDistinct [] = Unit
IsDistinct (x ∷ xs) = All (λ y. bits_eq x.1 y.1 ≡ false) xs × IsDistinct xs

bits_lt_total : (a b : Bits) → bits_lt a b ≡ false → bits_eq b a ≡ false → bits_lt b a ≡ true
bits_lt_total [] [] h e = cc
bits_lt_total [] (x ∷ b) h e = cc
bits_lt_total (x ∷ a) [] h e = refl
bits_lt_total (false ∷ a) (true ∷ b) h e = cc
bits_lt_total (true ∷ a) (false ∷ b) h e = refl
bits_lt_total (false ∷ a) (false ∷ b) h e = bits_lt_total a b h e
bits_lt_total (true ∷ a) (true ∷ b) h e = bits_lt_total a b h e

bits_lt_trans : (a b c : Bits) → bits_lt a b ≡ true → bits_lt b c ≡ true → bits_lt a c ≡ true
bits_lt_trans [] [] c h k = k
bits_lt_trans [] (y ∷ b) [] h k = k
bits_lt_trans [] (y ∷ b) (z ∷ c) h k = refl
bits_lt_trans (x ∷ a) [] c h k = cc
bits_lt_trans (x ∷ a) (false ∷ b) [] h k = cc
bits_lt_trans (x ∷ a) (true ∷ b) [] h k = cc
bits_lt_trans (false ∷ a) (false ∷ b) (false ∷ c) h k = bits_lt_trans a b c h k
bits_lt_trans (false ∷ a) (y ∷ b) (true ∷ c) h k = refl
bits_lt_trans (false ∷ a) (true ∷ b) (false ∷ c) h k = cc
bits_lt_trans (true ∷ a) (false ∷ b) (z ∷ c) h k = cc
bits_lt_trans (true ∷ a) (true ∷ b) (false ∷ c) h k = cc
bits_lt_trans (true ∷ a) (true ∷ b) (true ∷ c) h k = bits_lt_trans a b c h k

All-insert_sorted :
    (P : Entry → Type 0) (x : Entry) (ys : List Entry) → P x → All P ys → All P (insert_sorted x ys)
unfolding insert_sorted
All-insert_sorted P x [] p h = (p, tt)
All-insert_sorted P x (y ∷ ys) p h = elim (Bool-cases (bits_lt y.1 x.1)) [
  | inl e ↦ rw e (h.0, All-insert_sorted P x ys p h.1)
  | inr e ↦ rw e (p, h)
]

pub All-sort_by_bits : (P : Entry → Type 0) (xs : List Entry) → All P xs → All P (sort_by_bits xs)
unfolding sort_by_bits
All-sort_by_bits P [] h = tt
All-sort_by_bits P (x ∷ xs) h =
    All-insert_sorted P x (sort_by_bits xs) h.0 (All-sort_by_bits P xs h.1)

below-All :
    (a b : Bits) (ys : List Entry)
    → bits_lt a b ≡ true
    → All (λ y. bits_lt b y.1 ≡ true) ys
    → All (λ y. bits_lt a y.1 ≡ true) ys
below-All a b [] h k = tt
below-All a b (y ∷ ys) h k = (bits_lt_trans a b y.1 h k.0, below-All a b ys h k.1)

pub sort_by_bits-nonempty : (x : Entry) (xs : List Entry) → sort_by_bits (x ∷ xs) ≢ []
unfolding sort_by_bits
sort_by_bits-nonempty x xs = inserted (sort_by_bits xs)
  where
    inserted : (ys : List Entry) → insert_sorted x ys ≢ []
    inserted [] e = cc
    inserted (y ∷ ys) e = elim (Bool-cases (bits_lt y.1 x.1)) [
      | inl h ↦ let k = rw h at e in cc
      | inr h ↦ let k = rw h at e in cc
    ]

insert_sorted-Ascending :
    (x : Entry) (ys : List Entry)
    → All (λ y. bits_eq x.1 y.1 ≡ false) ys
    → Ascending 0 ys
    → Ascending 0 (insert_sorted x ys)
unfolding insert_sorted
insert_sorted-Ascending x [] d a = (tt, tt)
insert_sorted-Ascending x (y ∷ ys) d a = elim (Bool-cases (bits_lt y.1 x.1)) [
  | inl e ↦ rw e (
    All-insert_sorted (λ z. bits_lt y.1 z.1 ≡ true) x ys e a.0,
    insert_sorted-Ascending x ys d.1 a.1,
  )
  | inr e ↦
      let below = bits_lt_total y.1 x.1 e d.0 in rw e ((below, below-All x.1 y.1 ys below a.0), a)
]

-- Sorting leaves distinct entries strictly ascending.
pub sort_by_bits-Ascending : (xs : List Entry) → IsDistinct xs → Ascending 0 (sort_by_bits xs)
unfolding sort_by_bits
sort_by_bits-Ascending [] d = tt
sort_by_bits-Ascending (x ∷ xs) d =
    insert_sorted-Ascending x (sort_by_bits xs) (All-sort_by_bits _ xs d.0)
      (sort_by_bits-Ascending xs d.1)

put_over-insert_sorted :
    (x : Entry) (ys : List Entry) (f : Bits → Element) (p : Bits)
    → All (λ y. bits_eq x.1 y.1 ≡ false) ys
    → put_over 0 (insert_sorted x ys) f p ≡ put_over 0 (x ∷ ys) f p
unfolding insert_sorted
put_over-insert_sorted x [] f p d = refl
put_over-insert_sorted x (y ∷ ys) f p d = elim (Bool-cases (bits_lt y.1 x.1)) [
  | inl e ↦ rw e (
      swap (put_over-insert_sorted x ys f p d.1) (Bool-cases (bits_eq x.1 p))
        (Bool-cases (bits_eq y.1 p)))
  | inr e ↦ rw e
]
  where
    swap :
        put_over 0 (insert_sorted x ys) f p ≡ put_over 0 (x ∷ ys) f p
        → (bits_eq x.1 p ≡ true) ⊎ (bits_eq x.1 p ≡ false)
        → (bits_eq y.1 p ≡ true) ⊎ (bits_eq y.1 p ≡ false)
        → put_over 0 (y ∷ insert_sorted x ys) f p ≡ put_over 0 (x ∷ y ∷ ys) f p
    swap ih (inl a) (inl b) = absurd (
        true≢ (
          sym (bits_eq_refl p)
          ∙ subst (λ t. bits_eq t p ≡ false) (bits_eq→eq x.1 p a)
              (subst (λ t. bits_eq x.1 t ≡ false) (bits_eq→eq y.1 p b) d.0)))
      where
        true≢ : ¬ (true ≡ false)
        true≢ c = cc
    swap ih (inl a) (inr b) = rw (b, ih, a)
    swap ih (inr a) (inl b) = rw (b, a)
    swap ih (inr a) (inr b) = rw (b, ih, a)

-- Sorting changes nothing of what the batch puts where.
pub put_over-sort_by_bits :
    (xs : List Entry) (f : Bits → Element) (p : Bits)
    → IsDistinct xs
    → put_over 0 (sort_by_bits xs) f p ≡ put_over 0 xs f p
unfolding sort_by_bits
put_over-sort_by_bits [] f p d = refl
put_over-sort_by_bits (x ∷ xs) f p d =
    put_over-insert_sorted x (sort_by_bits xs) f p (All-sort_by_bits _ xs d.0)
    ∙ rest (put_over-sort_by_bits xs f p d.1) (Bool-cases (bits_eq x.1 p))
  where
    rest :
        put_over 0 (sort_by_bits xs) f p ≡ put_over 0 xs f p
        → (bits_eq x.1 p ≡ true) ⊎ (bits_eq x.1 p ≡ false)
        → put_over 0 (x ∷ sort_by_bits xs) f p ≡ put_over 0 (x ∷ xs) f p
    rest ih (inl a) = rw a
    rest ih (inr a) = rw a ih
