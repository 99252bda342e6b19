-- ===== src/Smirk/Contents.antt =====
-- What a node stands for: the element at each path. And the order of the entries of a batch,
-- which lets a parent split it between its children.
use tempo_zk_rollup.Base.{
  ℕ, zero, suc, ◌+◌, ◌≡◌, ◌≢◌, refl, Bool, true, false, List, [], ◌∷◌, ◌++◌, some, length,
  get_elem?, take, drop, All, All-append_left, if◌then◌else◌,
}
use tempo_zk_rollup.Smirk.Bits.{
  Element, Bits, null_hash, bits_eq, bits_lt, drop-eq_of_get_elem?, get_elem?-IsSome,
}
use tempo_zk_rollup.Smirk.Node.{Node, leaf, empty, parent, Entry, rights_start}

-- The element at a path; `null_hash` where there is none.
abbrev pub element_at : Node → Bits → Element
element_at (leaf e) p = e
element_at (empty d) p = null_hash
element_at (parent left right h dirty) [] = null_hash
element_at (parent left right h dirty) (true ∷ p) = element_at right p
element_at (parent left right h dirty) (false ∷ p) = element_at left p

-- The tree below a node has `h` levels of parents, and no leaf holds the null hash.
abbrev pub HasHeight : ℕ → Node → Type 0
HasHeight zero (leaf e) = e ≢ null_hash
HasHeight (suc h) (leaf e) = ⊥
HasHeight h (empty d) = d ≡ suc h
HasHeight zero (parent left right x dirty) = ⊥
HasHeight (suc h) (parent left right x dirty) = HasHeight h left × HasHeight h right

-- The leaves of `f`, with the entries of a batch put over them, below the first `i` bits.
abbrev pub put_over : ℕ → List Entry → (Bits → Element) → Bits → Element
put_over i [] f p = f p
put_over i (x ∷ es) f p = if bits_eq (drop i x.1) p then x.0 else put_over i es f p

-- Every entry goes on for `h` levels below the first `i`, and is no null hash.
abbrev pub IsEntry : ℕ → Entry → Type 0
IsEntry n x = (length x.1 ≡ n) × (x.0 ≢ null_hash)

abbrev pub Goes : ℕ → Bool → Entry → Type 0
Goes i v x = get_elem? x.1 i ≡ some v

-- Strictly ascending below the first `i` bits.
abbrev pub Ascending : ℕ → List Entry → Type 0
Ascending i [] = Unit
Ascending i (x ∷ es) = All (λ y. bits_lt (drop i x.1) (drop i y.1) ≡ true) es × Ascending i es

pub Ascending-append_left : (i : ℕ) (xs ys : List Entry) → Ascending i (xs ++ ys) → Ascending i xs
Ascending-append_left i [] ys h = tt
Ascending-append_left i (x ∷ xs) ys h =
    (All-append_left _ xs ys h.0, Ascending-append_left i xs ys h.1)

pub Ascending-append_right : (i : ℕ) (xs ys : List Entry) → Ascending i (xs ++ ys) → Ascending i ys
Ascending-append_right i [] ys h = h
Ascending-append_right i (x ∷ xs) ys h = Ascending-append_right i xs ys h.1

-- The order among entries that turn the same way is that of what follows.
below-turn :
    (i : ℕ) (v : Bool) (x : Entry) (ys : List Entry)
    → Goes i v x
    → All (Goes i v) ys
    → All (λ y. bits_lt (drop i x.1) (drop i y.1) ≡ true) ys
    → All (λ y. bits_lt (drop (suc i) x.1) (drop (suc i) y.1) ≡ true) ys
below-turn i v x [] gx gs h = tt
below-turn i true x (y ∷ ys) gx gs h = (
  subst₂' (drop-eq_of_get_elem? x.1 i gx) (drop-eq_of_get_elem? y.1 i gs.0) h.0,
  below-turn i true x ys gx gs.1 h.1,
)
  where
    subst₂' :
        {a b : Bits}
        → drop i x.1 ≡ true ∷ a
        → drop i y.1 ≡ true ∷ b
        → bits_lt (drop i x.1) (drop i y.1) ≡ true
        → bits_lt a b ≡ true
    subst₂' p q r = rw (p, q) at r
below-turn i false x (y ∷ ys) gx gs h = (
  subst₂' (drop-eq_of_get_elem? x.1 i gx) (drop-eq_of_get_elem? y.1 i gs.0) h.0,
  below-turn i false x ys gx gs.1 h.1,
)
  where
    subst₂' :
        {a b : Bits}
        → drop i x.1 ≡ false ∷ a
        → drop i y.1 ≡ false ∷ b
        → bits_lt (drop i x.1) (drop i y.1) ≡ true
        → bits_lt a b ≡ true
    subst₂' p q r = rw (p, q) at r

pub Ascending-turn :
    (i : ℕ) (v : Bool) (es : List Entry) → All (Goes i v) es → Ascending i es → Ascending (suc i) es
Ascending-turn i v [] g a = tt
Ascending-turn i v (x ∷ es) g a = (below-turn i v x es g.0 g.1 a.0, Ascending-turn i v es g.1 a.1)

-- Behind an entry that goes right, all go right.
All-right :
    (i k : ℕ) (x : Entry) (ys : List Entry)
    → Goes i true x
    → All (IsEntry (i + suc k)) ys
    → All (λ y. bits_lt (drop i x.1) (drop i y.1) ≡ true) ys
    → All (Goes i true) ys
All-right i k x [] gx es h = tt
All-right i k x (y ∷ ys) gx es h =
    (turn (get_elem?-IsSome y.1 i k es.0.0), All-right i k x ys gx es.1 h.1)
  where
    turn : (v : Bool) × (get_elem? y.1 i ≡ some v) → Goes i true y
    turn (true, e) = e
    turn (false, e) =
        let r = h.0 in
        absurd (false≢ (rw (drop-eq_of_get_elem? x.1 i gx, drop-eq_of_get_elem? y.1 i e) at r))
      where
        false≢ : ¬ (false ≡ true)
        false≢ c = cc

-- A sorted batch splits into the entries that go left and those that go right.
pub rights_start-splits :
    (i k : ℕ) (es : List Entry)
    → All (IsEntry (i + suc k)) es
    → Ascending i es
    → (s : ℕ) × (rights_start i es ≡ some s)
      × All (Goes i false) (take s es)
      × All (Goes i true) (drop s es)
unfolding rights_start
rights_start-splits i k [] e a = (0, refl, tt, tt)
rights_start-splits i k (x ∷ es) e a =
    turn (get_elem?-IsSome x.1 i k e.0.0) (rights_start-splits i k es e.1 a.1)
  where
    turn :
        (v : Bool) × (get_elem? x.1 i ≡ some v)
        → (s : ℕ) × (rights_start i es ≡ some s)
          × All (Goes i false) (take s es)
          × All (Goes i true) (drop s es)
        → (s : ℕ) × (rights_start i (x ∷ es) ≡ some s)
          × All (Goes i false) (take s (x ∷ es))
          × All (Goes i true) (drop s (x ∷ es))
    turn (true, g) ih = (0, rw (g, rights_start), tt, (g, All-right i k x es g e.1 a.0))
    turn (false, g) (s, r, l, t) = (suc s, rw (g, r, rights_start), (g, l), t)
