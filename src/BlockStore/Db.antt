-- ===== src/BlockStore/Db.antt =====
-- What pkg/block-store relies on of its database, RocksDB: the operations that it calls and the
-- documented behaviour of these.
use tempo_zk_rollup.Base.{
  ◌≡◌, refl, ◌∙◌, ◌↔◌, Bool, true, false, not, ◌&&◌, List, [], ◌∷◌, Option, some, All, All-imp,
  filter, ◌==◌, if◌then◌else◌, arith,
}
use tempo_zk_rollup.Base.HashMap
use tempo_zk_rollup.Base.HashMap.{Eq}
use tempo_zk_rollup.BlockStore.Bytes.{Bytes, bytes_lt}

abbrev pub bytes_beq : Bytes → Bytes → Bool
bytes_beq [] [] = true
bytes_beq [] (b ∷ bs) = false
bytes_beq (a ∷ as') [] = false
bytes_beq (a ∷ as') (b ∷ bs) = a == b && bytes_beq as' bs

pub bytes_beq_iff : (a b : Bytes) → (bytes_beq a b ≡ true) ↔ (a ≡ b)
bytes_beq_iff [] [] = (λ h. refl, λ h. refl)
bytes_beq_iff [] (b ∷ bs) = ground arith
bytes_beq_iff (a ∷ as') [] = ground arith
bytes_beq_iff (a ∷ as') (b ∷ bs) = ground (arith, bytes_beq_iff as' bs)

instance abbrev pub bytes_eq : Eq Bytes
bytes_eq = record { beq = bytes_beq; beq_iff = bytes_beq_iff }

-- The value of a key after the puts of a batch, `old` being the one before.
abbrev pub last_put : Bytes → List (Bytes × Bytes) → Option Bytes → Option Bytes
last_put k [] old = old
last_put k ((j, v) ∷ batch) old = last_put k batch (if bytes_beq j k then some v else old)

-- Strictly ascending keys.
abbrev pub Ascending : List (Bytes × Bytes) → Type 0
Ascending [] = Unit
Ascending (e ∷ es) = All (λ f. bytes_lt e.0 f.0 ≡ true) es × Ascending es

-- `write` writes a batch of puts, and `iterator_opt` is the iterator from the start with a lower
-- bound that is included and an upper bound that is not; from the end it gives the same backwards.
pub record RocksDb (D : Type 0) : Type 0 where
  pub get : D → Bytes → Option Bytes
  pub write : D → List (Bytes × Bytes) → D
  pub entries : D → List (Bytes × Bytes)
  pub iterator_opt : D → Bytes → Bytes → List (Bytes × Bytes)
  pub get-write :
      (d : D) (batch : List (Bytes × Bytes)) (k : Bytes)
      → get (write d batch) k ≡ last_put k batch (get d k)
  pub ascending : (d : D) → Ascending (entries d)
  pub get-entries : (d : D) (k : Bytes) → get d k ≡ HashMap.lookup k (entries d)
  pub iterator_opt-entries :
      (d : D) (lower upper : Bytes)
      → iterator_opt d lower upper
        ≡ filter (λ e. not (bytes_lt e.0 lower) && bytes_lt e.0 upper) (entries d)

pub bytes_lt_irrefl : (a : Bytes) → bytes_lt a a ≡ false
bytes_lt_irrefl [] = refl
bytes_lt_irrefl (x ∷ a) = ground (arith, bytes_lt_irrefl a)

-- Each entry of an ascending list is what its key is looked up to.
lookup-All :
    (es : List (Bytes × Bytes)) → Ascending es → All (λ e. HashMap.lookup e.0 es ≡ some e.1) es
lookup-All [] h = tt
lookup-All ((k, v) ∷ es) h = (rw ((bytes_beq_iff k k).1 refl), tail es (lookup-All es h.1) h.0)
  where
    tail :
        (fs : List (Bytes × Bytes))
        → All (λ e. HashMap.lookup e.0 es ≡ some e.1) fs
        → All (λ f. bytes_lt k f.0 ≡ true) fs
        → All (λ e. HashMap.lookup e.0 ((k, v) ∷ es) ≡ some e.1) fs
    tail [] a b = tt
    tail ((j, w) ∷ fs) a b =
        (ground (arith, a.0, b.0, bytes_beq_iff k j, bytes_lt_irrefl k), tail fs a.1 b.1)

module _ {D : Type 0} (db : RocksDb D) where
  -- Every entry is what `get` gives for its key.
  pub get-All : (d : D) → All (λ e. db.get d e.0 ≡ some e.1) (db.entries d)
  get-All d =
      All-imp (db.entries d) (λ e h. db.get-entries d e.0 ∙ h)
        (lookup-All (db.entries d) (db.ascending d))
