-- ===== src/Examples/SortedStore.antt =====
-- A database in memory with the laws that pkg/block-store relies on: a list of entries in the order
-- of their keys.
use tempo_zk_rollup.Base.{
  ◌≡◌, refl, sym, subst, ap, ◌∙◌, Bool, true, false, not, ◌&&◌, List, ◌∷◌, [], some, All, All-imp,
  filter, if◌then◌else◌, arith,
}
use tempo_zk_rollup.Base.HashMap
use tempo_zk_rollup.BlockStore.Bytes.{Bytes, bytes_lt}
use tempo_zk_rollup.BlockStore.Db.{
  RocksDb, Ascending, bytes_beq, bytes_beq_iff, bytes_eq, last_put, bytes_lt_irrefl,
}

bytes_lt_trans : (a b c : Bytes) → bytes_lt a b ≡ true → bytes_lt b c ≡ true → bytes_lt a c ≡ true
bytes_lt_trans [] [] c h k = absurd (cc)
bytes_lt_trans [] (y ∷ b) [] h k = k
bytes_lt_trans [] (y ∷ b) (z ∷ c) h k = refl
bytes_lt_trans (x ∷ a) [] c h k = absurd (cc)
bytes_lt_trans (x ∷ a) (y ∷ b) [] h k = k
bytes_lt_trans (x ∷ a) (y ∷ b) (z ∷ c) h k = ground (arith, bytes_lt_trans a b c, h, k)

bytes_lt_tri : (a b : Bytes) → bytes_lt a b ≡ false → bytes_lt b a ≡ false → a ≡ b
bytes_lt_tri [] [] h k = refl
bytes_lt_tri [] (y ∷ b) h k = absurd (cc)
bytes_lt_tri (x ∷ a) [] h k = absurd (cc)
bytes_lt_tri (x ∷ a) (y ∷ b) h k = ground (arith, bytes_lt_tri a b, h, k)

abbrev insert_sorted : Bytes → Bytes → List (Bytes × Bytes) → List (Bytes × Bytes)
insert_sorted k v [] = (k, v) ∷ []
insert_sorted k v (e ∷ es) =
    let rest = insert_sorted k v es in
    if bytes_lt k e.0 then (k, v) ∷ e ∷ es else (if bytes_lt e.0 k then e ∷ rest else (k, v) ∷ es)

lookup-insert_sorted :
    (k v i : Bytes) (es : List (Bytes × Bytes))
    → HashMap.lookup i (insert_sorted k v es)
      ≡ (if bytes_beq k i then some v else HashMap.lookup i es)
lookup-insert_sorted k v i [] = refl
lookup-insert_sorted k v i ((j, w) ∷ es) = ground (
  arith,
  lookup-insert_sorted k v i es,
  bytes_lt_tri k j,
  bytes_beq_iff k i,
  bytes_beq_iff j i,
  bytes_lt_irrefl k,
)

insert_sorted-All :
    (P : Bytes × Bytes → Type 0) (k v : Bytes) (es : List (Bytes × Bytes))
    → P (k, v)
    → All P es
    → All P (insert_sorted k v es)
insert_sorted-All P k v [] h a = (h, tt)
insert_sorted-All P k v (e ∷ es) h a =
    let rest = insert_sorted-All P k v es h a.1 in pick (bytes_lt k e.0) (bytes_lt e.0 k) rest
  where
    pick :
        (b c : Bool)
        → All P (insert_sorted k v es)
        → All P
            (if b then (k, v) ∷ e ∷ es else (if c then e ∷ insert_sorted k v es else (k, v) ∷ es))
    pick true c rest = (h, a)
    pick false true rest = (a.0, rest)
    pick false false rest = (h, a.1)

pub insert_sorted-Ascending :
    (k v : Bytes) (es : List (Bytes × Bytes)) → Ascending es → Ascending (insert_sorted k v es)
insert_sorted-Ascending k v [] a = (tt, tt)
insert_sorted-Ascending k v (e ∷ es) a =
    pick (bytes_lt k e.0) (bytes_lt e.0 k) refl refl (insert_sorted-Ascending k v es a.1)
  where
    pick :
        (b c : Bool)
        → bytes_lt k e.0 ≡ b
        → bytes_lt e.0 k ≡ c
        → Ascending (insert_sorted k v es)
        → Ascending
            (if b then (k, v) ∷ e ∷ es else (if c then e ∷ insert_sorted k v es else (k, v) ∷ es))
    pick true c p q rest = ((p, All-imp es (λ f h. bytes_lt_trans k e.0 f.0 p h) a.0), a)
    pick false true p q rest = (insert_sorted-All (λ f. bytes_lt e.0 f.0 ≡ true) k v es q a.0, rest)
    pick false false p q rest = (
      All-imp es (λ f h. subst (λ x. bytes_lt x f.0 ≡ true) (sym (bytes_lt_tri k e.0 p q)) h) a.0,
      a.1,
    )

-- The entries with their order.
abbrev pub Sorted : Type 0
Sorted = (es : List (Bytes × Bytes)) × Ascending es

abbrev write_sorted : Sorted → List (Bytes × Bytes) → Sorted
write_sorted d [] = d
write_sorted d ((k, v) ∷ batch) =
    write_sorted (insert_sorted k v d.0, insert_sorted-Ascending k v d.0 d.1) batch

pub lookup-write_sorted :
    (d : Sorted) (batch : List (Bytes × Bytes)) (k : Bytes)
    → HashMap.lookup k (write_sorted d batch).0 ≡ last_put k batch (HashMap.lookup k d.0)
lookup-write_sorted d [] k = refl
lookup-write_sorted d ((j, v) ∷ batch) k =
    lookup-write_sorted (insert_sorted j v d.0, insert_sorted-Ascending j v d.0 d.1) batch k
    ∙ ap (last_put k batch) (lookup-insert_sorted j v k d.0)

abbrev pub sorted_db : RocksDb Sorted
sorted_db = record {
  get = λ d k. HashMap.lookup k d.0;
  write = write_sorted;
  entries = λ d. d.0;
  iterator_opt = λ d lower upper. filter (λ e. not (bytes_lt e.0 lower) && bytes_lt e.0 upper) d.0;
  get-write = lookup-write_sorted;
  ascending = λ d. d.1;
  get-entries = λ d k. refl;
  iterator_opt-entries = λ d lower upper. refl;
}

abbrev pub empty_db : Sorted
empty_db = ([], tt)
