-- ===== src/Examples/Encoding.antt =====
-- An encoding of blocks and transactions as lists of numbers, for the runs of the node.
use tempo_zk_rollup.Base.{
  ℕ, zero, suc, ◌^◌, ◌≡◌, refl, ap, ◌∙◌, Bool, true, false, List, [], ◌∷◌, Option, none, some,
  length, replicate, ltb, ltb→lt, lt→ltb,
}
use native.Mathlib.Bridge.{le_prop}
use tempo_zk_rollup.BlockStore.Bytes.{Bytes}
use tempo_zk_rollup.Node.Utxo.{UtxoProof}
use tempo_zk_rollup.Node.Validate.{Block}
use tempo_zk_rollup.Node.Formats.{BlockFormat, v1, v2, TxnFormat, txn_v1, block_height}
use tempo_zk_rollup.Node.State.{StoredFormat, Codec}

abbrev Parser : Type 0 → Type 0
Parser A = List ℕ → Option (A × List ℕ)

infixl 20 ◌>>=◌
abbrev ◌>>=◌ : {A C : Type 0} → Option A → (A → Option C) → Option C
none >>= f = none
some a >>= f = f a

abbrev parse_nat : Parser ℕ
parse_nat [] = none
parse_nat (n ∷ r) = some (n, r)

-- Each encoding puts its numbers before a rest.
abbrev write_all : {A : Type 0} → (A → List ℕ → List ℕ) → List A → List ℕ → List ℕ
write_all w [] r = r
write_all w (a ∷ as') r = w a (write_all w as' r)

abbrev parse_all : {A : Type 0} → Parser A → ℕ → Parser (List A)
parse_all p zero r = some ([], r)
parse_all p (suc n) r = do x ← p r; y ← parse_all p n x.1; some (x.0 ∷ y.0, y.1)

parse_all-write_all :
    {A : Type 0} (w : A → List ℕ → List ℕ) (p : Parser A)
    → ((a : A) (r : List ℕ) → p (w a r) ≡ some (a, r))
    → (xs : List A) (r : List ℕ) → parse_all p (length xs) (write_all w xs r) ≡ some (xs, r)
parse_all-write_all w p h [] r = refl
parse_all-write_all w p h (x ∷ xs) r =
    rw (parse_all, h x (write_all w xs r), parse_all-write_all w p h xs r)

abbrev write_list : {A : Type 0} → (A → List ℕ → List ℕ) → List A → List ℕ → List ℕ
write_list w xs r = length xs ∷ write_all w xs r

abbrev parse_list : {A : Type 0} → Parser A → Parser (List A)
parse_list p r = do n ← parse_nat r; parse_all p n.0 n.1

abbrev write_nats : List ℕ → List ℕ → List ℕ
write_nats = write_list (λ n r. n ∷ r)

parse_nats : (xs r : List ℕ) → parse_list parse_nat (write_nats xs r) ≡ some (xs, r)
parse_nats xs r = parse_all-write_all (λ n s. n ∷ s) parse_nat (λ n s. refl) xs r

abbrev write_utxo : UtxoProof → List ℕ → List ℕ
write_utxo u r =
    u.recent_root
    ∷ u.mb_hash
    ∷ u.mb_value
    ∷ u.input_leaves.0
    ∷ u.input_leaves.1
    ∷ u.output_leaves.0
    ∷ u.output_leaves.1
    ∷ write_nats u.proof r

abbrev parse_utxo : Parser UtxoProof
parse_utxo r = do
  a ← parse_nat r
  b ← parse_nat a.1
  c ← parse_nat b.1
  d ← parse_nat c.1
  e ← parse_nat d.1
  f ← parse_nat e.1
  g ← parse_nat f.1
  p ← parse_list parse_nat g.1
  some (
    record {
      recent_root = a.0;
      mb_hash = b.0;
      mb_value = c.0;
      input_leaves = (d.0, e.0);
      output_leaves = (f.0, g.0);
      proof = p.0;
    },
    p.1,
  )

parse_utxo-write_utxo : (u : UtxoProof) (r : List ℕ) → parse_utxo (write_utxo u r) ≡ some (u, r)
parse_utxo-write_utxo u r = rw (parse_nats u.proof r)

abbrev write_block : Block → List ℕ → List ℕ
write_block b r =
    b.content.header.height
    ∷ b.content.header.last_block_hash
    ∷ b.content.header.epoch_id
    ∷ b.content.header.last_final_block_hash
    ∷ b.content.state.root_hash
    ∷ b.signature
    ∷ write_nats b.content.header.approvals (write_list write_utxo b.content.state.txns r)

abbrev parse_block : Parser Block
parse_block r = do
  a ← parse_nat r
  b ← parse_nat a.1
  c ← parse_nat b.1
  d ← parse_nat c.1
  e ← parse_nat d.1
  f ← parse_nat e.1
  g ← parse_list parse_nat f.1
  t ← parse_list parse_utxo g.1
  some (
    record {
      content = record {
        header = record {
          height = a.0;
          last_block_hash = b.0;
          epoch_id = c.0;
          last_final_block_hash = d.0;
          approvals = g.0;
        };
        state = record { root_hash = e.0; txns = t.0 };
      };
      signature = f.0;
    },
    t.1,
  )

parse_block-write_block : (b : Block) (r : List ℕ) → parse_block (write_block b r) ≡ some (b, r)
parse_block-write_block b r = rw (
  parse_nats b.content.header.approvals (write_list write_utxo b.content.state.txns r),
  parse_all-write_all write_utxo parse_utxo parse_utxo-write_utxo b.content.state.txns r,
)

abbrev write_option : Option ℕ → List ℕ → List ℕ
write_option none r = 0 ∷ r
write_option (some n) r = 1 ∷ n ∷ r

abbrev parse_option : Parser (Option ℕ)
parse_option [] = none
parse_option (zero ∷ r) = some (none, r)
parse_option (suc t ∷ []) = none
parse_option (suc t ∷ n ∷ r) = some (some n, r)

abbrev write_format : BlockFormat → List ℕ
write_format (v1 b) = 1 ∷ write_block b []
write_format (v2 b m) = 2 ∷ write_block b (write_option m.timestamp_unix_s [])

abbrev parse_format : List ℕ → Option BlockFormat
parse_format [] = none
parse_format (zero ∷ r) = none
parse_format (suc zero ∷ r) = do x ← parse_block r; some (v1 x.0)
parse_format (suc (suc t) ∷ r) = do
  x ← parse_block r
  y ← parse_option x.1
  some (v2 x.0 (record { timestamp_unix_s = y.0 }))

parse_option-write_option : (o : Option ℕ) → parse_option (write_option o []) ≡ some (o, [])
parse_option-write_option none = refl
parse_option-write_option (some n) = refl

parse_format-write_format : (b : BlockFormat) → parse_format (write_format b) ≡ some b
parse_format-write_format (v1 b) = rw (parse_block-write_block b [])
parse_format-write_format (v2 b m) = rw (
  parse_block-write_block b (write_option m.timestamp_unix_s []),
  parse_option-write_option m.timestamp_unix_s,
)

-- A block whose height is a `u64`.
abbrev bounded :
    (b : BlockFormat) (c : Bool) → ltb (block_height b) (2 ^ 64) ≡ c → Option StoredFormat
bounded b true q = some (b, ltb→lt (block_height b) (2 ^ 64) q)
bounded b false q = none

bounded_lem :
    (b : StoredFormat) (c : Bool) (q : ltb (block_height b.0) (2 ^ 64) ≡ c)
    → bounded b.0 c q ≡ some b
bounded_lem b true q =
    ap {B = Option StoredFormat} (λ t. some (b.0, t))
      (le_prop (ltb→lt (block_height b.0) (2 ^ 64) q) b.1)
bounded_lem b false q = absurd (differ (lt→ltb (block_height b.0) (2 ^ 64) b.1) q)
  where
    differ : {c : Bool} → c ≡ true → c ≡ false → ⊥
    differ p r = cc

abbrev write_txn : TxnFormat → List ℕ
write_txn (txn_v1 u m) =
    write_utxo u
      (m.block_height ∷ m.block_txn_index ∷ write_nats m.block_hash (write_option m.block_time []))

abbrev parse_txn : List ℕ → Option TxnFormat
parse_txn r = do
  u ← parse_utxo r
  h ← parse_nat u.1
  i ← parse_nat h.1
  b ← parse_list parse_nat i.1
  t ← parse_option b.1
  some (
      txn_v1 u.0
        (record { block_height = h.0; block_time = t.0; block_hash = b.0; block_txn_index = i.0 }))

pub parse_txn-write_txn : (t : TxnFormat) → parse_txn (write_txn t) ≡ some t
parse_txn-write_txn (txn_v1 u m) = rw (
  parse_utxo-write_utxo u
      (m.block_height ∷ m.block_txn_index ∷ write_nats m.block_hash (write_option m.block_time [])),
  parse_nats m.block_hash (write_option m.block_time []),
  parse_option-write_option m.block_time,
)

abbrev read_bounded : Bytes → Option StoredFormat
read_bounded bytes = do b ← parse_format bytes; bounded b (ltb (block_height b) (2 ^ 64)) refl

pub read_bounded-write_format : (b : StoredFormat) → read_bounded (write_format b.0) ≡ some b
read_bounded-write_format b =
    ap (λ o. o >>= (λ c. bounded c (ltb (block_height c) (2 ^ 64)) refl))
      (parse_format-write_format b.0)
    ∙ bounded_lem b (ltb (block_height b.0) (2 ^ 64)) refl

pub length-replicate : (n a : ℕ) → length (replicate n a) ≡ n
length-replicate zero a = refl
length-replicate (suc n) a = ap suc (length-replicate n a)

abbrev pub example_codec : Codec
example_codec = record {
  hash = λ b. replicate 32 b.content.header.height;
  utxo_hash = λ u. replicate 32 u.output_leaves.0;
  to_bytes = λ b. write_format b.0;
  from_bytes = read_bounded;
  txn_to_bytes = write_txn;
  txn_from_bytes = parse_txn;
  length-hash = λ b. length-replicate 32 b.content.header.height;
  length-utxo_hash = λ u. length-replicate 32 u.output_leaves.0;
  from_bytes-to_bytes = read_bounded-write_format;
  txn_from_bytes-txn_to_bytes = parse_txn-write_txn;
}
