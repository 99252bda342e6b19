-- ===== src/Smirk/Insertion.antt =====
-- `insert_without_hashing` of pkg/smirk/src/tree/tree_repr.rs inserts exactly the batch.
use tempo_zk_rollup.Base.{
  ℕ, zero, suc, ◌+◌, ◌≤◌, ◌≡◌, ◌≢◌, refl, sym, ◌∙◌, Bool, true, false, List, [], ◌∷◌, ◌++◌, length,
  take, drop, All, take-append-drop, arith, subst,
}
use tempo_zk_rollup.Smirk.Bits.{Element, Bits, null_hash, bits_lt}
use tempo_zk_rollup.Smirk.Hash.{empty_tree_hash}
use tempo_zk_rollup.Smirk.Node.{
  Node, leaf, empty, parent, Entry, Outcome, done, insert_sides, insert_parent, insert_first,
  insert_empty, insert_without_hashing,
}
use tempo_zk_rollup.Smirk.Recalculate.{IsHashed, IsMarked, IsHashed-IsMarked}
use tempo_zk_rollup.Smirk.Contents.{element_at, HasHeight, put_over, Goes, IsEntry}
use tempo_zk_rollup.Smirk.Insert.{
  put_over_congr, IsFree, put_over_left, put_over_right, Fits, Fits-Split,
}

pub drop_all : (i : ℕ) (b : Bits) → length b ≤ i → drop i b ≡ []
drop_all zero [] h = refl
drop_all zero (x ∷ b) h = absurd (omega arith)
drop_all (suc i) [] h = refl
drop_all (suc i) (x ∷ b) h = drop_all i b (omega arith)

pub not_below : {a b : Bits} → a ≡ [] → b ≡ [] → bits_lt a b ≡ true → ⊥
not_below p q h = let r = rw (p, q) at h in cc r

module _ (merge : Element → Element → Element) where
  -- The call on a node of height `h` put the batch into it: the answer is `Ok(true)`, the shape
  -- and the marks are in order, and the elements are the old ones with the batch over them.
  pub record Inserts (h i : ℕ) (n : Node) (es : List Entry) (res : Node × Outcome) : Type 0 where
    pub ok : res.1 ≡ done true
    pub height : HasHeight h res.0
    pub marked : IsMarked merge res.0
    pub contents : (p : Bits) → length p ≡ h → element_at res.0 p ≡ put_over i es (element_at n) p

  sides-Inserts :
      (h i : ℕ) (left right : Node) (x : Element) (d : Bool)
      (go_left go_right : List Entry → Node × Outcome) (xs ys : List Entry)
      → HasHeight h left × IsMarked merge left
      → HasHeight h right × IsMarked merge right
      → All (Goes i false) xs
      → All (Goes i true) ys
      → (xs ≢ [] → Inserts h (suc i) left xs (go_left xs))
      → (ys ≢ [] → Inserts h (suc i) right ys (go_right ys))
      → xs ++ ys ≢ []
      → Inserts
          (suc h)
          i
          (parent left right x d)
          (xs ++ ys)
          (insert_sides go_left go_right left right x d xs ys)
  unfolding insert_sides
  sides-Inserts h i left right x d go_left go_right [] [] l r gl gr hl hr ne = absurd (ne refl)
  sides-Inserts h i left right x d go_left go_right (a ∷ xs) [] l r gl gr hl hr ne =
      let v = hl (λ e. cc) in
      record {
        ok = ground arith;
        height = (v.height, r.0);
        marked = rw v.ok (v.marked, r.1);
        contents = elim [
          | [] ↦ λ e. absurd (omega arith)
          | false ∷ p ↦
              λ e. v.contents p (omega arith) ∙ sym (put_over_left i (a ∷ xs) [] _ p gl gr)
          | true ∷ p ↦ λ e. sym (put_over_right i (a ∷ xs) [] _ p gl gr)
        ];
      }
  sides-Inserts h i left right x d go_left go_right [] (b ∷ ys) l r gl gr hl hr ne =
      let w = hr (λ e. cc) in
      record {
        ok = ground arith;
        height = (l.0, w.height);
        marked = rw w.ok (l.1, w.marked);
        contents = elim [
          | [] ↦ λ e. absurd (omega arith)
          | false ∷ p ↦ λ e. sym (put_over_left i [] (b ∷ ys) _ p gl gr)
          | true ∷ p ↦
              λ e. w.contents p (omega arith) ∙ sym (put_over_right i [] (b ∷ ys) _ p gl gr)
        ];
      }
  sides-Inserts h i left right x d go_left go_right (a ∷ xs) (b ∷ ys) l r gl gr hl hr ne =
      let v = hl (λ e. cc) in
      let w = hr (λ e. cc) in
      record {
        ok = ground arith;
        height = (v.height, w.height);
        marked = rw v.ok (v.marked, w.marked);
        contents = elim [
          | [] ↦ λ e. absurd (omega arith)
          | false ∷ p ↦
              λ e. v.contents p (omega arith) ∙ sym (put_over_left i (a ∷ xs) (b ∷ ys) _ p gl gr)
          | true ∷ p ↦
              λ e. w.contents p (omega arith) ∙ sym (put_over_right i (a ∷ xs) (b ∷ ys) _ p gl gr)
        ];
      }

  parent-Inserts :
      (h i : ℕ) (left right : Node) (x : Element) (d : Bool)
      (go_left go_right : List Entry → Node × Outcome) (es : List Entry)
      → HasHeight h left × IsMarked merge left
      → HasHeight h right × IsMarked merge right
      → Fits (suc h) i (element_at (parent left right x d)) es
      → ((xs : List Entry)
          → Fits h (suc i) (element_at left) xs
          → xs ≢ []
          → Inserts h (suc i) left xs (go_left xs))
      → ((ys : List Entry)
          → Fits h (suc i) (element_at right) ys
          → ys ≢ []
          → Inserts h (suc i) right ys (go_right ys))
      → es ≢ []
      → Inserts
          (suc h)
          i
          (parent left right x d)
          es
          (insert_parent go_left go_right left right x d es i)
  unfolding insert_parent
  parent-Inserts h i left right x d go_left go_right es l r fits hl hr ne =
      let s = Fits-Split h i _ es fits in
      let joined = take-append-drop s.start es in
      rw (s.found, insert_parent)
        (subst
          (λ t.
            Inserts (suc h) i (parent left right x d) t
              (insert_sides go_left go_right left right x d (take s.start es) (drop s.start es)))
          joined
          (sides-Inserts h i left right x d go_left go_right (take s.start es) (drop s.start es) l r
            s.left_goes s.right_goes (hl _ s.left_fits) (hr _ s.right_fits)
            (λ e. ne (sym joined ∙ e))))

  first-Inserts :
      (i : ℕ) (es : List Entry)
      → Fits zero i (λ _. null_hash) es
      → es ≢ []
      → Inserts zero i (empty 1) es (insert_first es)
  unfolding insert_first
  first-Inserts i [] fits ne = absurd (ne refl)
  first-Inserts i (x ∷ []) fits ne = record {
    ok = refl;
    height = fits.entries.0.1;
    marked = tt;
    contents = elim [
      | [] ↦ λ e. rw (drop_all i x.1 (omega (arith, fits.entries.0.0)))
      | b ∷ p ↦ λ e. absurd (omega arith)
    ];
  }
  first-Inserts i (x ∷ y ∷ es) fits ne = absurd (
      not_below (drop_all i x.1 (omega (arith, fits.entries.0.0)))
        (drop_all i y.1 (omega (arith, fits.entries.1.0.0))) fits.sorted.0.0)

  -- An empty node of height `h` takes the batch.
  empty-Inserts :
      (h i : ℕ) (es : List Entry)
      → Fits h i (λ _. null_hash) es
      → es ≢ []
      → Inserts h i (empty (suc h)) es (insert_empty merge (suc h) es i)
  unfolding insert_empty
  empty-Inserts zero i es fits ne = first-Inserts i es fits ne
  empty-Inserts (suc h) i es fits ne = from_parent (
      parent-Inserts h i (empty (suc h)) (empty (suc h)) (empty_tree_hash merge (suc (suc h))) false
        _ _ es (refl, tt) (refl, tt)
        (record {
          entries = fits.entries;
          sorted = fits.sorted;
          free = free_in_parent es fits.entries fits.free;
        })
        (λ xs f n. empty-Inserts h (suc i) xs f n) (λ ys f n. empty-Inserts h (suc i) ys f n) ne)
    where
      free_in_parent :
          (xs : List Entry)
          → All (IsEntry (i + suc h)) xs
          → All (IsFree i (λ _. null_hash)) xs
          → All
              (IsFree i (
                element_at (
                  parent
                    (empty (suc h))
                    (empty (suc h))
                    (empty_tree_hash merge (suc (suc h)))
                    false)))
              xs
      free_in_parent [] e v = tt
      free_in_parent (x ∷ xs) e v = (empties (drop i x.1), free_in_parent xs e.1 v.1)
        where
          empties :
              (p : Bits)
              → element_at
                  (parent
                    (empty (suc h))
                    (empty (suc h))
                    (empty_tree_hash merge (suc (suc h)))
                    false)
                  p
                ≡ null_hash
          empties [] = refl
          empties (true ∷ p) = refl
          empties (false ∷ p) = refl

      from_parent :
          {res : Node × Outcome}
          → Inserts
              (suc h)
              i
              (parent (empty (suc h)) (empty (suc h)) (empty_tree_hash merge (suc (suc h))) false)
              es
              res
          → Inserts (suc h) i (empty (suc (suc h))) es res
      from_parent v = record {
        ok = v.ok;
        height = v.height;
        marked = v.marked;
        contents = elim [
          | [] ↦ λ e. absurd (omega arith)
          | true ∷ p ↦ λ e. v.contents (true ∷ p) e ∙ put_over_congr i es _ _ (true ∷ p) refl
          | false ∷ p ↦ λ e. v.contents (false ∷ p) e ∙ put_over_congr i es _ _ (false ∷ p) refl
        ];
      }

  -- A batch that fits, put into a hashed node: the answer is `Ok(true)` and the elements are the
  -- old ones with the batch over them.
  pub insert_without_hashing-Inserts :
      (depth h i : ℕ) (n : Node) (es : List Entry)
      → HasHeight h n
      → IsHashed merge n
      → Fits h i (element_at n) es
      → es ≢ []
      → Inserts h i n es (insert_without_hashing merge depth n es i)
  unfolding insert_without_hashing
  insert_without_hashing-Inserts depth zero i (leaf e) [] v k fits ne = absurd (ne refl)
  insert_without_hashing-Inserts depth zero i (leaf e) (x ∷ es) v k fits ne = absurd (v fits.free.0)
  insert_without_hashing-Inserts depth (suc h) i (leaf e) es v k fits ne = absurd v
  insert_without_hashing-Inserts depth h i (empty d) es v k fits ne =
      rw v (empty-Inserts h i es fits ne)
  insert_without_hashing-Inserts depth zero i (parent left right x d) es v k fits ne = absurd v
  insert_without_hashing-Inserts depth (suc h) i (parent left right x d) es v k fits ne =
      parent-Inserts h i left right x d _ _ es (v.0, IsHashed-IsMarked merge left k.2)
        (v.1, IsHashed-IsMarked merge right k.3) fits
        (λ xs f n. insert_without_hashing-Inserts depth h (suc i) left xs v.0 k.2 f n)
        (λ ys f n. insert_without_hashing-Inserts depth h (suc i) right ys v.1 k.3 f n) ne
