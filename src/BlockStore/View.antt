-- ===== src/BlockStore/View.antt =====
-- The answers of the block store as maps, and `set` on these: pkg/block-store/src/lib.rs.
use tempo_zk_rollup.Base.{
  ◌^◌, ◌<◌, ◌≡◌, Option, none, some, length, ltb, ◌==◌, if◌then◌else◌, arith,
}
use tempo_zk_rollup.Doomslug.Approval.{BlockHeight}
use tempo_zk_rollup.BlockStore.Bytes.{
  Bytes, to_be_bytes, length-to_be_bytes, from_be_bytes-to_be_bytes, u64-HasBytes,
}
use tempo_zk_rollup.BlockStore.Db.{RocksDb, bytes_beq, last_put}
use tempo_zk_rollup.BlockStore.Keys.{serialize_to, block, max_height, txn_by_hash, ok, serialize}
use tempo_zk_rollup.BlockStore.Store.{
  StoredBlock, decode_height, get_max_height, get_block_height_by_hash, max_height_entry,
  set_entries, puts, set, get, get_txn_by_hash,
}
use tempo_zk_rollup.BlockStore.Set.{
  last_txn, last_put-block, last_put-max_height, last_put-block_hash, last_put-txn_hash,
  decode-last_put-txn_entries,
}

decode_height-to_be_bytes :
    (h : BlockHeight) → h < 2 ^ 64 → decode_height (some (to_be_bytes 8 h)) ≡ ok (some h)
decode_height-to_be_bytes h l =
    rw (length-to_be_bytes 8 h, from_be_bytes-to_be_bytes 8 h (u64-HasBytes h l))

module _ {B Txn : Type 0} (ops : StoredBlock B Txn) where
  -- What a block store answers.
  pub record View : Type 0 where
    pub block_at : BlockHeight → Option B
    pub max_at : Option BlockHeight
    pub height_of : Bytes → Option BlockHeight
    pub txn_of : Bytes → Option Txn

  abbrev pub max_with : BlockHeight → Option BlockHeight → BlockHeight
  max_with h none = h
  max_with h (some m) = if ltb m h then h else m

  -- The answers after a block.
  abbrev pub view_set : View → B → View
  view_set v b = record {
    block_at = λ h. if ops.block_height b == h then some b else v.block_at h;
    max_at = some (max_with (ops.block_height b) v.max_at);
    height_of = λ hash.
        if bytes_beq (ops.block_hash b) hash then some (ops.block_height b) else v.height_of hash;
    txn_of = λ hash. last_txn ops hash (ops.txns b) (v.txn_of hash);
  }

  decode_height-max_height_entry :
      (b : B) (m : Option BlockHeight) (old : Option Bytes)
      → decode_height old ≡ ok m
      → decode_height (last_put (serialize max_height) (puts ops (max_height_entry ops b m)) old)
        ≡ ok (some (max_with (ops.block_height b) m))
  unfolding serialize_to
  decode_height-max_height_entry b none old h =
      decode_height-to_be_bytes (ops.block_height b) (ops.height_u64 b)
  decode_height-max_height_entry b (some m) old h =
      ground (arith, h, decode_height-to_be_bytes (ops.block_height b) (ops.height_u64 b))

  module _ {D : Type 0} (db : RocksDb D) where
    -- The answers are those of the view.
    pub record Shows (d : D) (v : View) : Type 0 where
      pub block_at_lem : (h : BlockHeight) → h < 2 ^ 64 → get ops db d h ≡ ok (v.block_at h)
      pub max_at_lem : get_max_height db d ≡ ok v.max_at
      pub height_of_lem :
          (hash : Bytes)
          → length hash ≡ 32
          → get_block_height_by_hash db d hash ≡ ok (v.height_of hash)
      pub txn_of_lem :
          (hash : Bytes) → length hash ≡ 32 → get_txn_by_hash ops db d hash ≡ ok (v.txn_of hash)

    get_max_height-set :
        (d : D) (b : B) (m : Option BlockHeight)
        → get_max_height db d ≡ ok m
        → get_max_height db (db.write d (puts ops (set_entries ops b m)))
          ≡ ok (some (max_with (ops.block_height b) m))
    unfolding get_max_height
    get_max_height-set d b m h =
        rw (db.get-write, last_put-max_height ops b m)
          (decode_height-max_height_entry b m (db.get d (serialize max_height)) h)

    -- Where the block store answers as a view does, `set` succeeds, and the store then answers
    -- as the view with the block in it: at its height there is the block, the maximum is the
    -- larger of the two heights, its hash gives its height, and the hash of each of its
    -- transactions the last one with that hash; all other answers are as before.
    pub set-Shows :
        (d : D) (v : View) (b : B)
        → Shows d v
        → (d' : D) × (set ops db d b ≡ ok d') × Shows d' (view_set v b)
    unfolding set get get_block_height_by_hash get_txn_by_hash
    set-Shows d v b s = (
      d',
      rw (s.max_at_lem),
      record {
        block_at_lem = λ h l.
            rw (db.get-write, last_put-block ops h b v.max_at (db.get d (serialize (block h))) l)
              (ground (arith, s.block_at_lem h l, ops.from_bytes-to_bytes b));
        max_at_lem = get_max_height-set d b v.max_at s.max_at_lem;
        height_of_lem = λ hash l.
            rw (db.get-write, last_put-block_hash ops hash b v.max_at)
              (ground (
                arith,
                s.height_of_lem hash l,
                decode_height-to_be_bytes (ops.block_height b) (ops.height_u64 b),
              ));
        txn_of_lem = λ hash l.
            rw (db.get-write, last_put-txn_hash ops hash b v.max_at)
              (decode-last_put-txn_entries ops hash (ops.txns b)
                (db.get d (serialize (txn_by_hash hash))) (v.txn_of hash) (s.txn_of_lem hash l));
      },
    )
      where
        d' : D
        d' = db.write d (puts ops (set_entries ops b v.max_at))
