-- ===== src/Smirk/Tree/Proves.antt =====
-- What the paths of pkg/smirk/src/tree/path.rs prove.
use tempo_zk_rollup.Base.{
  ℕ, zero, suc, ◌-◌, ◌<◌, ◌≡◌, refl, sym, ap, ◌∙◌, true, false, List, [], ◌∷◌, ◌++◌, some, length,
  take, drop, replicate, reverse, set?, set?-append, get_elem?, arith, length-append,
  some_injective, Bool-cases, inl, inr, length-reverse, ◌==◌, ==_refl, ==→eq, subst,
}
use tempo_zk_rollup.Base.TreeMap
use tempo_zk_rollup.Smirk.Bits.{
  Element, Bits, null_hash, lsb, length-lsb, bits_eq, bits_eq→eq, bits_eq_refl,
}
use tempo_zk_rollup.Smirk.Hash.{merkle_root, merkle_root_congr}
use tempo_zk_rollup.Smirk.Contents.{element_at}
use tempo_zk_rollup.Smirk.Tree.{Tree, root_hash, contains_element}
use tempo_zk_rollup.Smirk.Tree.Valid.{IsValid}
use tempo_zk_rollup.Smirk.Tree.Root.{root_hash-merkle_root, merkle_root-injective}
use tempo_zk_rollup.Smirk.Tree.Path.{MerklePath, compute_root_hash, proves, walk, path_for}
use tempo_zk_rollup.Smirk.Tree.Siblings.{
  replace, siblings_of, length-siblings_of, climb-siblings_of, compute_merkle_root-climb,
}
use tempo_zk_rollup.Smirk.Tree.Walk.{walk_lem}

-- The last place of an array, which holds the element.
set?_last :
    (s : List Element) (x v : Element)
    → set? (s ++ x ∷ []) (length (s ++ x ∷ []) - 1) v ≡ some (s ++ v ∷ [])
set?_last s x v = rw (length_less s x) (set?-append s x v [])
  where
    length_less : (s : List Element) (x : Element) → length (s ++ x ∷ []) - 1 ≡ length s
    length_less s x = omega (arith, length-append s (x ∷ []))

get_elem?_last :
    (s : List Element) (x : Element) → get_elem? (s ++ x ∷ []) (length (s ++ x ∷ []) - 1) ≡ some x
get_elem?_last s x = rw (length_less s x) (at_end s)
  where
    length_less : (s : List Element) (x : Element) → length (s ++ x ∷ []) - 1 ≡ length s
    length_less s x = omega (arith, length-append s (x ∷ []))

    at_end : (s : List Element) → get_elem? (s ++ x ∷ []) (length s) ≡ some x
    at_end [] = refl
    at_end (y ∷ s) = at_end s

take-append : (s t : List Element) (h : ℕ) → length s ≡ h → take h (s ++ t) ≡ s
take-append [] t zero l = refl
take-append [] t (suc h) l = absurd (omega arith)
take-append (x ∷ s) t zero l = absurd (omega arith)
take-append (x ∷ s) t (suc h) l = ap (λ u. x ∷ u) (take-append s t h (omega arith))

drop-append : (s t : List Element) (h : ℕ) → length s ≡ h → drop h (s ++ t) ≡ t
drop-append [] t zero l = refl
drop-append [] t (suc h) l = absurd (omega arith)
drop-append (x ∷ s) t zero l = absurd (omega arith)
drop-append (x ∷ s) t (suc h) l = drop-append s t h (omega arith)

drop-replicate : (h : ℕ) → drop h (replicate (suc h) null_hash) ≡ null_hash ∷ []
drop-replicate zero = refl
drop-replicate (suc h) = drop-replicate h

length-replicate : (h : ℕ) → length (replicate h null_hash) ≡ h
length-replicate zero = refl
length-replicate (suc h) = ap suc (length-replicate h)

replace_self : (p q : Bits) (f : Bits → Element) → replace p (f p) f q ≡ f q
replace_self p q f = elim (Bool-cases (bits_eq p q)) [
  | inl h ↦ rw h (ap f (bits_eq→eq p q h))
  | inr h ↦ rw h
]

module _ (merge : Element → Element → Element) where
  -- Two roots are equal just where the leaf in question is.
  root_agrees :
      ((a b c d : Element) → merge a b ≡ merge c d → (a ≡ c) × (b ≡ d))
      → (h : ℕ) (f : Bits → Element) (q : Bits) (x : Element) → length q ≡ h
      → (merkle_root merge h (replace q x f) == merkle_root merge h f) ≡ (x == f q)
  root_agrees inj h f q x l = elim (Bool-cases (x == f q)) [
    | inl e ↦
        rw
          (
            e,
            merkle_root_congr merge h (replace q x f) f (λ r _.
                subst (λ y. replace q y f r ≡ f r) (sym (==→eq x (f q) e)) (replace_self q r f)),
          )
          (==_refl (merkle_root merge h f))
    | inr e ↦ rw e (
        not_equal
          (λ r. differ e (sym at_q ∙ merkle_root-injective merge inj h (replace q x f) f r q l)))
  ]
    where
      at_q : replace q x f q ≡ x
      at_q = rw (bits_eq_refl q)

      not_equal : {a b : ℕ} → (a ≡ b → ⊥) → (a == b) ≡ false
      not_equal n = ground arith

      differ : (x == f q) ≡ false → x ≡ f q → ⊥
      differ e r = ground arith

module _ (merge : Element → Element → Element) {V : Type 0} where
  -- The siblings of the element's path in the naive tree, the deepest first, and the element.
  abbrev pub true_path : ℕ → Tree V → Element → MerklePath
  true_path depth t e = record {
    siblings =
        reverse (siblings_of merge (depth - 1) (element_at t.node) (lsb e (depth - 1))) ++ e ∷ [];
    root_hash = root_hash merge t;
  }

  -- On a well-formed tree that has depth, `path_for` does not panic, and gives the siblings
  -- that the naive tree has on the path of the element, the deepest first, the element after
  -- them, and the root.
  pub path_for-true_path :
      (depth : ℕ) (t : Tree V) (e : Element)
      → 0 < depth
      → IsValid merge depth t
      → path_for merge depth t e ≡ some (true_path depth t e)
  unfolding path_for
  path_for-true_path zero t e d v = absurd (omega arith)
  path_for-true_path (suc h) t e d v =
      let k : ℕ = suc h - 1 in
      let p = lsb e k in
      let ss = siblings_of merge k (element_at t.node) p in
      let len : length ss ≡ k = length-siblings_of merge k (element_at t.node) p (length-lsb e k) in
      let eq : k ≡ h = omega arith in
      let walked : walk merge t.node p 0 (replicate (suc h) null_hash)
          ≡ some (ss ++ null_hash ∷ []) =
        walk_lem merge k 0 t.node p [] (replicate (suc h) null_hash) v.height v.hashed
          (length-lsb e k) refl (omega (arith, length-replicate h))
        ∙ ap (λ r. some (ss ++ r))
            (subst (λ j. drop j (replicate (suc h) null_hash) ≡ null_hash ∷ []) (sym eq)
              (drop-replicate h)) in
      rw (
        walked,
        set?_last ss null_hash e,
        take-append ss (e ∷ []) k len,
        drop-append ss (e ∷ []) k len,
      )

  -- From the path of an element in a well-formed tree that has depth, `compute_root_hash`
  -- finds, for any element, the root of the tree with that element in the path's leaf.
  pub compute_root_hash-replace :
      (depth : ℕ) (t : Tree V) (e x : Element)
      → 0 < depth
      → IsValid merge depth t
      → compute_root_hash merge depth (true_path depth t e) x
        ≡ some (merkle_root merge (depth - 1) (replace (lsb e (depth - 1)) x (element_at t.node)))
  unfolding compute_root_hash
  compute_root_hash-replace depth t e x d v =
      let p = lsb e (depth - 1) in
      let ss = siblings_of merge (depth - 1) (element_at t.node) p in
      let len : length ss ≡ depth - 1 =
        length-siblings_of merge (depth - 1) (element_at t.node) p (length-lsb e (depth - 1)) in
      rw
        (
          get_elem?_last (reverse ss) e,
          take-append (reverse ss) (e ∷ []) (depth - 1) (length-reverse ss ∙ len),
        )
        (ap some (
          compute_merkle_root-climb merge ss p x (len ∙ sym (length-lsb e (depth - 1)))
          ∙ climb-siblings_of merge (depth - 1) (element_at t.node) p x (length-lsb e (depth - 1))))

  -- For an element of a well-formed tree that has depth, `path_for` gives a path, and this path
  -- proves the element.
  pub path_for-proves :
      (depth : ℕ) (t : Tree V) (e : Element)
      → 0 < depth
      → IsValid merge depth t
      → contains_element t e ≡ true
      → (p : MerklePath) × (path_for merge depth t e ≡ some p)
        × (proves merge depth p e ≡ some true)
  unfolding proves
  path_for-proves depth t e d v c =
      let held : element_at t.node (lsb e (depth - 1)) ≡ e =
        TreeMap.All-contains_key (λ k. element_at t.node (lsb k (depth - 1)) ≡ k) e t.entries v.held
          c in
      let same : merkle_root merge (depth - 1) (replace (lsb e (depth - 1)) e (element_at t.node))
          ≡ root_hash merge t =
        merkle_root_congr merge (depth - 1) _ _ (λ q l.
          subst (λ x. replace (lsb e (depth - 1)) x (element_at t.node) q ≡ element_at t.node q)
            held (replace_self (lsb e (depth - 1)) q (element_at t.node)))
        ∙ sym (root_hash-merkle_root merge depth t v) in
      (
        true_path depth t e,
        path_for-true_path depth t e d v,
        rw (compute_root_hash-replace depth t e e d v, same, ==_refl (root_hash merge t)),
      )

  -- Where the hash has no collisions and the tree is well-formed and has depth, the path that
  -- `path_for` gives for `e` proves just the element that stands at the leaf of `e`.
  pub proves_iff :
      ((a b c d : Element) → merge a b ≡ merge c d → (a ≡ c) × (b ≡ d))
      → (depth : ℕ) (t : Tree V) (e x : Element) (p : MerklePath) → 0 < depth
      → IsValid merge depth t
      → path_for merge depth t e ≡ some p
      → proves merge depth p x ≡ some (x == element_at t.node (lsb e (depth - 1)))
  unfolding proves
  proves_iff inj depth t e x p d v h =
      let q = lsb e (depth - 1) in
      let f = element_at t.node in
      let is_true : true_path depth t e ≡ p =
        some_injective (sym (path_for-true_path depth t e d v) ∙ h) in
      subst (λ (r : MerklePath). proves merge depth r x ≡ some (x == f q)) is_true
        (rw (compute_root_hash-replace depth t e x d v, root_hash-merkle_root merge depth t v)
          (ap some (root_agrees merge inj (depth - 1) f q x (length-lsb e (depth - 1)))))
