-- ===== src/Smirk/Insert.antt =====
-- What `insert_without_hashing` of pkg/smirk/src/tree/tree_repr.rs does to the elements of a node.
use tempo_zk_rollup.Base.{
  ℕ, suc, ◌+◌, ◌≡◌, refl, sym, ap, ◌∙◌, Bool, true, false, List, [], ◌∷◌, ◌++◌, some, take, drop,
  All, All-append_left, All-append_right, take-append-drop, arith, subst,
}
use tempo_zk_rollup.Smirk.Bits.{Element, Bits, null_hash, drop-eq_of_get_elem?}
use tempo_zk_rollup.Smirk.Node.{Entry, rights_start}
use tempo_zk_rollup.Smirk.Contents.{
  put_over, IsEntry, Goes, Ascending, Ascending-turn, Ascending-append_left, Ascending-append_right,
  rights_start-splits,
}

pub put_over-append :
    (i : ℕ) (xs ys : List Entry) (f : Bits → Element) (p : Bits)
    → put_over i (xs ++ ys) f p ≡ put_over i xs (put_over i ys f) p
put_over-append i [] ys f p = refl
put_over-append i (x ∷ xs) ys f p = rw (put_over-append i xs ys f p)

put_over-turn :
    (i : ℕ) (v : Bool) (xs : List Entry) (f : Bits → Element) (p : Bits)
    → All (Goes i v) xs
    → put_over i xs f (v ∷ p) ≡ put_over (suc i) xs (λ q. f (v ∷ q)) p
put_over-turn i v [] f p g = refl
put_over-turn i true (x ∷ xs) f p g =
    rw (drop-eq_of_get_elem? x.1 i g.0, put_over-turn i true xs f p g.1)
put_over-turn i false (x ∷ xs) f p g =
    rw (drop-eq_of_get_elem? x.1 i g.0, put_over-turn i false xs f p g.1)

put_over-right_left :
    (i : ℕ) (xs : List Entry) (f : Bits → Element) (p : Bits)
    → All (Goes i true) xs
    → put_over i xs f (false ∷ p) ≡ f (false ∷ p)
put_over-right_left i [] f p g = refl
put_over-right_left i (x ∷ xs) f p g =
    rw (drop-eq_of_get_elem? x.1 i g.0) (put_over-right_left i xs f p g.1)

put_over-left_right :
    (i : ℕ) (xs : List Entry) (f : Bits → Element) (p : Bits)
    → All (Goes i false) xs
    → put_over i xs f (true ∷ p) ≡ f (true ∷ p)
put_over-left_right i [] f p g = refl
put_over-left_right i (x ∷ xs) f p g =
    rw (drop-eq_of_get_elem? x.1 i g.0) (put_over-left_right i xs f p g.1)

pub put_over_congr :
    (i : ℕ) (xs : List Entry) (f g : Bits → Element) (p : Bits)
    → f p ≡ g p
    → put_over i xs f p ≡ put_over i xs g p
put_over_congr i [] f g p e = e
put_over_congr i (x ∷ xs) f g p e = rw (put_over_congr i xs f g p e)

-- What a split batch puts below the left child, and below the right one.
pub put_over_left :
    (i : ℕ) (xs ys : List Entry) (f : Bits → Element) (p : Bits)
    → All (Goes i false) xs
    → All (Goes i true) ys
    → put_over i (xs ++ ys) f (false ∷ p) ≡ put_over (suc i) xs (λ q. f (false ∷ q)) p
put_over_left i xs ys f p l r =
    put_over-append i xs ys f (false ∷ p)
    ∙ put_over_congr i xs (put_over i ys f) f (false ∷ p) (put_over-right_left i ys f p r)
    ∙ put_over-turn i false xs f p l

pub put_over_right :
    (i : ℕ) (xs ys : List Entry) (f : Bits → Element) (p : Bits)
    → All (Goes i false) xs
    → All (Goes i true) ys
    → put_over i (xs ++ ys) f (true ∷ p) ≡ put_over (suc i) ys (λ q. f (true ∷ q)) p
put_over_right i xs ys f p l r =
    put_over-append i xs ys f (true ∷ p)
    ∙ put_over-left_right i xs (put_over i ys f) p l
    ∙ put_over-turn i true ys f p r

-- No entry's place is taken.
abbrev pub IsFree : ℕ → (Bits → Element) → Entry → Type 0
IsFree i f x = f (drop i x.1) ≡ null_hash

-- A batch that a node of height `h`, below the first `i` bits, can take.
pub record Fits (h i : ℕ) (f : Bits → Element) (es : List Entry) : Type 0 where
  pub entries : All (IsEntry (i + h)) es
  pub sorted : Ascending i es
  pub free : All (IsFree i f) es

IsFree-turn :
    (i : ℕ) (v : Bool) (f : Bits → Element) (xs : List Entry)
    → All (Goes i v) xs
    → All (IsFree i f) xs
    → All (IsFree (suc i) (λ q. f (v ∷ q))) xs
IsFree-turn i v f [] g h = tt
IsFree-turn i v f (x ∷ xs) g h =
    (sym (ap f (drop-eq_of_get_elem? x.1 i g.0)) ∙ h.0, IsFree-turn i v f xs g.1 h.1)

Fits-turn :
    (h i : ℕ) (v : Bool) (f : Bits → Element) (xs : List Entry)
    → All (Goes i v) xs
    → Fits (suc h) i f xs
    → Fits h (suc i) (λ q. f (v ∷ q)) xs
Fits-turn h i v f xs g fits = record {
  entries = subst (λ m. All (IsEntry m) xs) (omega arith) fits.entries;
  sorted = Ascending-turn i v xs g fits.sorted;
  free = IsFree-turn i v f xs g fits.free;
}

Fits-append_left :
    (h i : ℕ) (f : Bits → Element) (xs ys : List Entry) → Fits h i f (xs ++ ys) → Fits h i f xs
Fits-append_left h i f xs ys fits = record {
  entries = All-append_left _ xs ys fits.entries;
  sorted = Ascending-append_left i xs ys fits.sorted;
  free = All-append_left _ xs ys fits.free;
}

Fits-append_right :
    (h i : ℕ) (f : Bits → Element) (xs ys : List Entry) → Fits h i f (xs ++ ys) → Fits h i f ys
Fits-append_right h i f xs ys fits = record {
  entries = All-append_right _ xs ys fits.entries;
  sorted = Ascending-append_right i xs ys fits.sorted;
  free = All-append_right _ xs ys fits.free;
}

-- How a batch that fits splits at a parent.
pub record Split (h i : ℕ) (f : Bits → Element) (es : List Entry) : Type 0 where
  pub start : ℕ
  pub found : rights_start i es ≡ some start
  pub left_goes : All (Goes i false) (take start es)
  pub right_goes : All (Goes i true) (drop start es)
  pub left_fits : Fits h (suc i) (λ q. f (false ∷ q)) (take start es)
  pub right_fits : Fits h (suc i) (λ q. f (true ∷ q)) (drop start es)

pub Fits-Split :
    (h i : ℕ) (f : Bits → Element) (es : List Entry) → Fits (suc h) i f es → Split h i f es
Fits-Split h i f es fits =
    let (s, e, l, r) = rights_start-splits i h es fits.entries fits.sorted in
    let parts = subst (Fits (suc h) i f) (sym (take-append-drop s es)) fits in
    record {
      start = s;
      found = e;
      left_goes = l;
      right_goes = r;
      left_fits =
          Fits-turn h i false f _ l (Fits-append_left (suc h) i f (take s es) (drop s es) parts);
      right_fits =
          Fits-turn h i true f _ r (Fits-append_right (suc h) i f (take s es) (drop s es) parts);
    }
