-- ===== src/Node/Mempool.antt =====
-- The pool of pending transactions: pkg/node/src/mempool.rs. Each method holds the lock for all of
-- its body, but for `commit`, which gives it up before `free`; a call is one step here.
use tempo_zk_rollup.Base.{
  ℕ, ◌≡◌, Bool, true, false, ◌||◌, List, [], ◌∷◌, ◌++◌, Option, none, some, length, map, any, leb,
  if◌then◌else◌, arith,
}
use tempo_zk_rollup.Base.HashMap
use tempo_zk_rollup.Base.HashMap.{Eq}
pub mod Loop
pub mod Leases
pub mod Commit

-- A sender of a one-shot channel is known by a number.
pub record MempoolTxn (Txn Change : Type 0) : Type 0 where
  pub txn : Txn
  pub sender : Option ℕ
  pub changes : List Change

pub record MempoolState (Key Txn Lease Change : Type 0) : Type 0 where
  pub txns : List (Key × MempoolTxn Txn Change)
  pub pool : List Key
  pub leased : List (Lease × List Key)

module _ {K : Type 0} ⦃e : Eq K⦄ where
  -- `HashSet` and the queue, as lists.
  abbrev pub member : K → List K → Bool
  member k [] = false
  member k (j ∷ ks) = e.beq j k || member k ks

  abbrev pub set_insert : K → List K → List K
  set_insert k ks = if member k ks then ks else ks ++ k ∷ []

  abbrev pub set_remove : K → List K → List K
  set_remove k [] = []
  set_remove k (j ∷ ks) = let rest = set_remove k ks in if e.beq j k then rest else j ∷ rest

  -- `position`, and `remove` at that place.
  abbrev pub remove_first : K → List K → List K
  remove_first k [] = []
  remove_first k (j ∷ ks) = let rest = remove_first k ks in if e.beq j k then ks else j ∷ rest

-- `push_front` for each key.
abbrev pub push_all : {K : Type 0} → List K → List K → List K
push_all [] pool = pool
push_all (k ∷ ks) pool = push_all ks (k ∷ pool)

abbrev pub sender_of : {Txn Change : Type 0} → Option (MempoolTxn Txn Change) → List ℕ
sender_of none = []
sender_of (some t) = elim t.sender [ none ↦ [] | some c ↦ c ∷ [] ]

-- The local variables of `lease_batch`, with the leases.
pub record Leasing (Key Txn Lease Change : Type 0) : Type 0 where
  pub taken : List (Key × Txn)
  pub discard : List Key
  pub conflict_check : List Change
  pub leases : List (Lease × List Key)

module _ {Key Lease : Type 0} ⦃ek : Eq Key⦄ ⦃el : Eq Lease⦄ where
  -- `leased.remove(&lease).unwrap_or_default()`.
  abbrev pub keys_of : Lease → List (Lease × List Key) → List Key
  keys_of lease m = elim (HashMap.lookup lease m) [ none ↦ [] | some ks ↦ ks ]

  -- `leased.get_mut(&lease)`, with the key taken out of the set.
  abbrev pub unlease : Lease → Key → List (Lease × List Key) → List (Lease × List Key)
  unlease lease key m = elim (HashMap.lookup lease m) [
    | none ↦ m
    | some ks ↦ HashMap.insert lease (set_remove key ks) m
  ]

  -- `leased.entry(lease).or_insert(...).insert(key)`.
  abbrev pub lease_insert : Lease → Key → List (Lease × List Key) → List (Lease × List Key)
  lease_insert lease key m = HashMap.insert lease (set_insert key (keys_of lease m)) m

module _ {Key Txn Lease Change : Type 0} ⦃ek : Eq Key⦄ ⦃el : Eq Lease⦄ ⦃ec : Eq Change⦄ where
  -- `Mempool::_add`, which `add` calls with no sender and `add_wait` with one.
  unfoldable pub add :
      Key
      → Txn
      → List Change
      → Option ℕ
      → MempoolState Key Txn Lease Change
      → MempoolState Key Txn Lease Change
  add key txn changes sender s = if HashMap.contains_key key s.txns then s else record s {
    txns = HashMap.insert key (record { txn = txn; sender = sender; changes = changes }) s.txns;
    pool = s.pool ++ key ∷ [];
  }

  -- `Mempool::free`.
  unfoldable pub free :
      Lease → MempoolState Key Txn Lease Change → MempoolState Key Txn Lease Change
  free lease s = record s {
    leased = HashMap.remove lease s.leased;
    pool = push_all (keys_of lease s.leased) s.pool;
  }

  -- One round of the loop of `commit`.
  unfoldable pub commit_key :
      Lease → Key → MempoolState Key Txn Lease Change → MempoolState Key Txn Lease Change
  commit_key lease key s = record {
    txns = HashMap.remove key s.txns;
    leased = unlease lease key s.leased;
    pool = remove_first key s.pool;
  }

  -- The loop of `commit`: the state, and the results with the senders that they go to.
  unfoldable pub commit_keys :
      {R : Type 0}
      → Lease
      → List (Key × R)
      → MempoolState Key Txn Lease Change
      → MempoolState Key Txn Lease Change × List (ℕ × R)
  unfolding commit_key
  commit_keys lease [] s = (s, [])
  commit_keys lease ((key, result) ∷ rest) s =
      let (s', sent) = commit_keys lease rest (commit_key lease key s) in
      (s', map (λ c. (c, result)) (sender_of (HashMap.lookup key s.txns)) ++ sent)

  -- `Mempool::commit`.
  unfoldable pub commit :
      {R : Type 0}
      → Lease
      → List (Key × R)
      → MempoolState Key Txn Lease Change
      → MempoolState Key Txn Lease Change × List (ℕ × R)
  unfolding commit_keys free
  commit lease keys_with_results s =
      let (s', sent) = commit_keys lease keys_with_results s in (free lease s', sent)

  -- `Mempool::lease_txns`.
  unfoldable pub lease_txns :
      Lease → List Key → MempoolState Key Txn Lease Change → MempoolState Key Txn Lease Change
  lease_txns lease [] s = s
  lease_txns lease (key ∷ keys) s =
      lease_txns lease keys
        (record s { pool = remove_first key s.pool; leased = lease_insert lease key s.leased })

  -- A round that takes a transaction.
  abbrev pub take_txn :
      Lease
      → Key
      → MempoolTxn Txn Change
      → Leasing Key Txn Lease Change
      → Leasing Key Txn Lease Change
  take_txn lease key t l = record {
    taken = l.taken ++ (key, t.txn) ∷ [];
    discard = l.discard;
    conflict_check = l.conflict_check ++ t.changes;
    leases = lease_insert lease key l.leases;
  }

  -- The loop of `lease_batch` over the pool, with what is left of the pool; `none` is the panic on
  -- a key without a transaction.
  unfoldable pub batch_loop :
      Lease
      → ℕ
      → List (Key × MempoolTxn Txn Change)
      → List Key
      → Leasing Key Txn Lease Change
      → Option (Leasing Key Txn Lease Change × List Key)
  batch_loop lease max_count txns [] l = some (l, [])
  batch_loop lease max_count txns (key ∷ pool) l = elim (HashMap.lookup key txns) [
    | none ↦ none
    | some t ↦
        (let skipped =
            batch_loop lease max_count txns pool (record l { discard = l.discard ++ key ∷ [] }) in
          let after = take_txn lease key t l in
          let more = batch_loop lease max_count txns pool after in
          if any (λ c. member c l.conflict_check) t.changes
          then skipped
          else (if leb max_count (length after.taken) then some (after, pool) else more))
  ]

  -- `Mempool::lease_batch`.
  unfoldable pub lease_batch :
      Lease
      → ℕ
      → MempoolState Key Txn Lease Change
      → Option (MempoolState Key Txn Lease Change × List (Key × Txn))
  unfolding batch_loop
  lease_batch lease max_count s =
      elim (batch_loop lease max_count s.txns s.pool
        (record { taken = []; discard = []; conflict_check = []; leases = s.leased })) [
          | none ↦ none
          | some (l, rest) ↦
              some (record s { pool = rest ++ l.discard; leased = l.leases }, l.taken)
        ]
