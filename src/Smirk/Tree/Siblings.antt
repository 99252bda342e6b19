-- ===== src/Smirk/Tree/Siblings.antt =====
-- The siblings of a path in the naive tree, and the root that they lead to; see
-- `compute_root_hash` of pkg/smirk/src/tree/path.rs.
use mathlib.Core.List.{append_assoc, reverse-cons, append-nil}
use mathlib.Core.List
use tempo_zk_rollup.Base.{
  ℕ, zero, suc, ◌≡◌, refl, ap, ◌∙◌, Bool, true, false, List, [], ◌∷◌, ◌++◌, length, reverse, zip,
  if◌then◌else◌, arith, length-reverse,
}
use tempo_zk_rollup.Smirk.Bits.{Element, Bits, bits_eq}
use tempo_zk_rollup.Smirk.Hash.{compute_merkle_root, merkle_root}

-- A leaf of `f` changed.
abbrev pub replace : Bits → Element → (Bits → Element) → Bits → Element
replace p x f q = if bits_eq p q then x else f q

module _ (merge : Element → Element → Element) where
  -- The siblings of a path in the naive tree, the topmost first.
  unfoldable pub siblings_of : ℕ → (Bits → Element) → Bits → List Element
  siblings_of zero f p = []
  siblings_of (suc h) f [] = []
  siblings_of (suc h) f (true ∷ p) =
      merkle_root merge h (λ q. f (false ∷ q)) ∷ siblings_of h (λ q. f (true ∷ q)) p
  siblings_of (suc h) f (false ∷ p) =
      merkle_root merge h (λ q. f (true ∷ q)) ∷ siblings_of h (λ q. f (false ∷ q)) p

  pub length-siblings_of :
      (h : ℕ) (f : Bits → Element) (p : Bits) → length p ≡ h → length (siblings_of h f p) ≡ h
  unfolding siblings_of
  length-siblings_of zero f p l = refl
  length-siblings_of (suc h) f [] l = absurd (omega arith)
  length-siblings_of (suc h) f (true ∷ p) l = ap suc (length-siblings_of h _ p (omega arith))
  length-siblings_of (suc h) f (false ∷ p) l = ap suc (length-siblings_of h _ p (omega arith))

  -- The root from a leaf and the siblings of its path, the topmost first.
  unfoldable pub climb : List Element → Bits → Element → Element
  climb [] p x = x
  climb (s ∷ ss) [] x = x
  climb (s ∷ ss) (true ∷ p) x = merge s (climb ss p x)
  climb (s ∷ ss) (false ∷ p) x = merge (climb ss p x) s

  pub climb-siblings_of :
      (h : ℕ) (f : Bits → Element) (p : Bits) (x : Element)
      → length p ≡ h
      → climb (siblings_of h f p) p x ≡ merkle_root merge h (replace p x f)
  unfolding climb siblings_of merkle_root
  climb-siblings_of zero f [] x l = refl
  climb-siblings_of zero f (b ∷ p) x l = absurd (omega arith)
  climb-siblings_of (suc h) f [] x l = absurd (omega arith)
  climb-siblings_of (suc h) f (true ∷ p) x l =
      ap (merge (merkle_root merge h (λ q. f (false ∷ q))))
        (climb-siblings_of h (λ q. f (true ∷ q)) p x (omega arith))
  climb-siblings_of (suc h) f (false ∷ p) x l =
      ap (λ t. merge t (merkle_root merge h (λ q. f (true ∷ q))))
        (climb-siblings_of h (λ q. f (false ∷ q)) p x (omega arith))

  zip-snoc :
      (ss : List Element) (bs : Bits) (s : Element) (b : Bool)
      → length ss ≡ length bs
      → zip (ss ++ s ∷ []) (bs ++ b ∷ []) ≡ zip ss bs ++ (s, b) ∷ []
  unfolding List.zip List.zip_with
  zip-snoc [] [] s b l = refl
  zip-snoc [] (c ∷ bs) s b l = absurd (omega arith)
  zip-snoc (t ∷ ss) [] s b l = absurd (omega arith)
  zip-snoc (t ∷ ss) (c ∷ bs) s b l = ap (λ z. (t, c) ∷ z) (zip-snoc ss bs s b (omega arith))

  compute_merkle_root-snoc :
      (e : Element) (xs : List (Element × Bool)) (s : Element) (b : Bool)
      → compute_merkle_root merge e (xs ++ (s, b) ∷ []) ≡ (
          if b
          then merge s (compute_merkle_root merge e xs)
          else merge (compute_merkle_root merge e xs) s)
  unfolding compute_merkle_root
  compute_merkle_root-snoc e [] s b = refl
  compute_merkle_root-snoc e ((t, c) ∷ xs) s b =
      compute_merkle_root-snoc (if c then merge t e else merge e t) xs s b

  -- The loop from the deepest sibling up is the climb.
  pub compute_merkle_root-climb :
      (ss : List Element) (p : Bits) (x : Element)
      → length ss ≡ length p
      → compute_merkle_root merge x (zip (reverse ss) (reverse p)) ≡ climb ss p x
  unfolding climb compute_merkle_root List.zip List.zip_with
  compute_merkle_root-climb [] [] x l = refl
  compute_merkle_root-climb [] (b ∷ p) x l = absurd (omega arith)
  compute_merkle_root-climb (s ∷ ss) [] x l = absurd (omega arith)
  compute_merkle_root-climb (s ∷ ss) (b ∷ p) x l =
      rw
        (
          reverse-cons s ss,
          reverse-cons b p,
          zip-snoc (reverse ss) (reverse p) s b
              (omega (arith, length-reverse ss, length-reverse p)),
        )
        (compute_merkle_root-snoc x (zip (reverse ss) (reverse p)) s b
          ∙ turn b (compute_merkle_root-climb ss p x (omega arith)))
    where
      turn :
          (b : Bool) {r : Element}
          → r ≡ climb ss p x
          → (if b then merge s r else merge r s) ≡ climb (s ∷ ss) (b ∷ p) x
      turn true e = ap (merge s) e
      turn false e = ap (λ t. merge t s) e
