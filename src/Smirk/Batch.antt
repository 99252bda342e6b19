-- ===== src/Smirk/Batch.antt =====
-- pkg/smirk/src/batch: a set of new entries of which no two have the same path.
use mathlib.Core.List.{append-nil, append_assoc}
use tempo_zk_rollup.Base.{
  ℕ, ◌-◌, ◌≡◌, refl, sym, ap, ◌∙◌, inl, inr, Bool, false, List, [], ◌∷◌, ◌++◌, Option, none, some,
  map, any, find, filter, All, if◌then◌else◌, arith, Bool-cases, Option-cases, subst,
}
use tempo_zk_rollup.Smirk.Bits.{Element, Bits, lsb, bits_eq}
use tempo_zk_rollup.Smirk.Node.{Collision, batch, Entry}
use tempo_zk_rollup.Smirk.Sort.{IsDistinct}

-- The `HashSet` of paths is a list; its members are compared as bit slices.
abbrev pub contains : List Bits → Bits → Bool
contains s b = any (λ x. bits_eq x b) s

abbrev set_insert : List Bits → Bits → List Bits
set_insert s b = if contains s b then s else s ++ b ∷ []

abbrev set_extend : List Bits → List Bits → List Bits
set_extend s [] = s
set_extend s (b ∷ bs) = set_extend (set_insert s b) bs

pub record Batch (V : Type 0) : Type 0 where
  pub entries : List (Element × V)
  pub lsbs : List Bits

-- `Result<_, CollisionError>`; `panics` is an `unwrap` of `None`.
pub data Checked (A : Type 0) : Type 0 where
  ok : A → Checked A
  collides : List Collision → Checked A
  panics : Checked A

infixl 5 ◌>>=◌
abbrev pub ◌>>=◌ : {A B : Type 0} → Checked A → (A → Checked B) → Checked B
ok a >>= f = f a
collides c >>= f = collides c
panics >>= f = panics

-- The parts of a chain that succeeds.
pub bind_ok :
    {A B : Type 0} {y : B} (first : Checked A) (next : A → Checked B)
    → (first >>= next) ≡ ok y
    → (x : A) × (first ≡ ok x) × (next x ≡ ok y)
bind_ok (collides problem) next h = cc
bind_ok panics next h = cc
bind_ok (ok x) next h = (x, refl, h)

module _ {V : Type 0} where
  -- `Batch::new`.
  abbrev pub new : Batch V
  new = record { entries = []; lsbs = [] }

  -- `Batch::elements`.
  abbrev pub elements : Batch V → List Element
  elements b = map (λ x. x.0) b.entries

  -- `find_element_with_lsb`.
  unfoldable pub find_element_with_lsb : ℕ → Batch V → Bits → Option Element
  find_element_with_lsb depth b l = find (λ e. bits_eq (lsb e (depth - 1)) l) (elements b)

  -- `Batch::insert`; on an error the batch is left as it was.
  unfoldable pub insert : ℕ → Batch V → Element → V → Checked (Batch V)
  insert depth b element value =
      let l = lsb element (depth - 1) in
      if contains b.lsbs l
      then elim (find_element_with_lsb depth b l) [
        | none ↦ panics
        | some e ↦
            collides
              (record { in_tree = e; inserted = element; depth = depth; struct_name = batch } ∷ [])
      ]
      else ok (record { entries = b.entries ++ (element, value) ∷ []; lsbs = set_insert b.lsbs l })

  -- The loop of `from_entries`.
  unfoldable pub insert_all : ℕ → Batch V → List (Element × V) → Checked (Batch V)
  insert_all depth b [] = ok b
  insert_all depth b ((element, value) ∷ rest) = do
    b' ← insert depth b element value
    insert_all depth b' rest

  -- `Batch::from_entries`.
  unfoldable pub from_entries : ℕ → List (Element × V) → Checked (Batch V)
  unfolding insert_all
  from_entries depth entries = insert_all depth new entries

  -- The collisions that `merge` reports, one for each path that both batches have.
  unfoldable pub merge_collisions : ℕ → Batch V → Batch V → List Bits → Checked (List Collision)
  merge_collisions depth self other [] = ok []
  merge_collisions depth self other (l ∷ ls) = elim (find_element_with_lsb depth self l) [
    | none ↦ panics
    | some a ↦ elim (find_element_with_lsb depth other l) [
      | none ↦ panics
      | some b ↦ do
        rest ← merge_collisions depth self other ls
        ok (record { in_tree = a; inserted = b; depth = depth; struct_name = batch } ∷ rest)
    ]
  ]

  -- `Batch::merge`.
  unfoldable pub merge : ℕ → Batch V → Batch V → Checked (Batch V)
  unfolding merge_collisions
  merge depth self other = elim (filter (contains other.lsbs) self.lsbs) [
    | [] ↦
        ok (record {
          entries = self.entries ++ other.entries;
          lsbs = set_extend self.lsbs other.lsbs;
        })
    | l ∷ ls ↦ do cs ← merge_collisions depth self other (l ∷ ls); collides cs
  ]

  -- The entries of a batch with their paths.
  abbrev pub placed : ℕ → List (Element × V) → List Entry
  placed depth entries = map (λ x. (x.0, lsb x.0 (depth - 1))) entries

  abbrev pub paths : ℕ → List (Element × V) → List Bits
  paths depth entries = map (λ x. lsb x.0 (depth - 1)) entries

  -- The set holds the paths of the entries, and no two of these are the same.
  pub record IsValid (depth : ℕ) (b : Batch V) : Type 0 where
    pub tracked : b.lsbs ≡ paths depth b.entries
    pub distinct : IsDistinct (placed depth b.entries)

  IsDistinct-snoc :
      (depth : ℕ) (xs : List (Element × V)) (x : Element × V)
      → contains (paths depth xs) (lsb x.0 (depth - 1)) ≡ false
      → IsDistinct (placed depth xs)
      → IsDistinct (placed depth (xs ++ x ∷ []))
  IsDistinct-snoc depth [] x c d = (tt, tt)
  IsDistinct-snoc depth (y ∷ ys) x c d =
      (apart ys d.0 (ground arith), IsDistinct-snoc depth ys x (ground arith) d.1)
    where
      apart :
          (zs : List (Element × V))
          → All (λ z. bits_eq (lsb y.0 (depth - 1)) z.1 ≡ false) (placed depth zs)
          → bits_eq (lsb y.0 (depth - 1)) (lsb x.0 (depth - 1)) ≡ false
          → All (λ z. bits_eq (lsb y.0 (depth - 1)) z.1 ≡ false) (placed depth (zs ++ x ∷ []))
      apart [] h e = (e, tt)
      apart (z ∷ zs) h e = (h.0, apart zs h.1 e)

  paths-append :
      (depth : ℕ) (xs ys : List (Element × V))
      → paths depth (xs ++ ys) ≡ paths depth xs ++ paths depth ys
  paths-append depth [] ys = refl
  paths-append depth (x ∷ xs) ys = ap (λ t. lsb x.0 (depth - 1) ∷ t) (paths-append depth xs ys)

  ok-injective : {a b : Batch V} → ok a ≡ ok b → a ≡ b
  ok-injective h = cc

  -- An entry that is taken goes to the end, and keeps the batch valid.
  pub insert-IsValid :
      (depth : ℕ) (b b' : Batch V) (e : Element) (v : V)
      → IsValid depth b
      → insert depth b e v ≡ ok b'
      → IsValid depth b' × (b'.entries ≡ b.entries ++ (e, v) ∷ [])
  unfolding insert
  insert-IsValid depth b b' e v valid h = elim (Bool-cases (contains b.lsbs (lsb e (depth - 1)))) [
    | inl c ↦
        let h' = rw c at h in
        elim (Option-cases (find_element_with_lsb depth b (lsb e (depth - 1)))) [
          | inl n ↦ let h'' = rw n at h' in absurd (clash₁ h'')
          | inr (a, n) ↦ let h'' = rw n at h' in absurd (clash₂ h'')
        ]
    | inr c ↦
        let h' = ok-injective (rw c at h) in
        subst (λ t. IsValid depth t × (t.entries ≡ b.entries ++ (e, v) ∷ [])) h'
          (
            record {
              tracked =
                  ap (λ t. t ++ lsb e (depth - 1) ∷ []) valid.tracked
                  ∙ sym (paths-append depth b.entries ((e, v) ∷ []));
              distinct =
                  IsDistinct-snoc depth b.entries (e, v)
                    (subst (λ t. contains t (lsb e (depth - 1)) ≡ false) valid.tracked c)
                    valid.distinct;
            },
            refl,
          )
  ]
    where
      clash₁ : {B : Type 0} {b' : B} → panics ≡ ok b' → ⊥
      clash₁ k = cc

      clash₂ : {B : Type 0} {c : List Collision} {b' : B} → collides c ≡ ok b' → ⊥
      clash₂ k = cc

  insert_all-IsValid :
      (depth : ℕ) (b b' : Batch V) (es : List (Element × V))
      → IsValid depth b
      → insert_all depth b es ≡ ok b'
      → IsValid depth b' × (b'.entries ≡ b.entries ++ es)
  unfolding insert_all
  insert_all-IsValid depth b b' [] valid h =
      subst (λ t. IsValid depth t × (t.entries ≡ b.entries ++ [])) (ok-injective h)
        (valid, sym (append-nil b.entries))
  insert_all-IsValid depth b b' ((e, v) ∷ es) valid h =
      let (c, p, q) = bind_ok (insert depth b e v) (λ t. insert_all depth t es) h in
      let (valid', e') = insert-IsValid depth b c e v valid p in
      let (valid'', e'') = insert_all-IsValid depth c b' es valid' q in
      (valid'', e'' ∙ ap (λ t. t ++ es) e' ∙ append_assoc b.entries ((e, v) ∷ []) es)

  -- Where `from_entries` answers `Ok`, the batch is well-formed, no two entries having the same
  -- path, and holds just the entries given, in their order.
  pub from_entries-IsValid :
      (depth : ℕ) (b : Batch V) (es : List (Element × V))
      → from_entries depth es ≡ ok b
      → IsValid depth b × (b.entries ≡ es)
  unfolding from_entries
  from_entries-IsValid depth b es h =
      insert_all-IsValid depth new b es (record { tracked = refl; distinct = tt }) h
