-- ===== src/Node/Formats/Upgrade.antt =====
-- The versions of blocks and transactions: pkg/node/src/node/block_format.rs and txn_format.rs.
use tempo_zk_rollup.Base.{ℕ, ◌+◌, ◌≤◌, ◌≡◌, sym, ap, none, arith}
use tempo_zk_rollup.WireMessage.{WireMessage, WireResult, ok, err, max_version_reached}
use tempo_zk_rollup.Node.Formats.{BlockFormat, v1, v2, TxnFormat, txn_v1}

abbrev pub version : BlockFormat → ℕ
version (v1 block) = 1
version (v2 block m) = 2

abbrev pub upgrade_once :
    {Err : Type 0} → Unit {0} → BlockFormat → Unit {0} × WireResult Err BlockFormat
upgrade_once c (v1 block) = (c, ok (v2 block (record { timestamp_unix_s = none })))
upgrade_once c (v2 block m) = (c, err (max_version_reached 2))

ok-injective : {Err A : Type 0} {a b : A} → ◌≡◌ {A = WireResult Err A} (ok a) (ok b) → a ≡ b
ok-injective p = cc

pub version-upgrade_once :
    {Err : Type 0} (c : Unit {0}) (m m' : BlockFormat)
    → (upgrade_once {Err = Err} c m).1 ≡ ok m'
    → version m' ≡ version m + 1
version-upgrade_once c (v1 block) m' q = ap version (sym (ok-injective q))
version-upgrade_once c (v2 block x) m' q = absurd (cc)

pub version_bound : (m : BlockFormat) → version m ≤ 2
version_bound (v1 block) = omega arith
version_bound (v2 block m) = omega arith

-- `WireMessage for BlockFormat`.
abbrev pub block_format_message : {Err : Type 0} → WireMessage BlockFormat (Unit {0}) Err
block_format_message = record {
  max_version = 2;
  version = version;
  upgrade_once = upgrade_once;
  version-upgrade_once = version-upgrade_once;
  version_bound = version_bound;
}

abbrev pub txn_upgrade_once :
    {Err : Type 0} → Unit {0} → TxnFormat → Unit {0} × WireResult Err TxnFormat
txn_upgrade_once c (txn_v1 t m) = (c, err (max_version_reached 1))

pub version-txn_upgrade_once :
    {Err : Type 0} (c : Unit {0}) (m m' : TxnFormat)
    → (txn_upgrade_once {Err = Err} c m).1 ≡ ok m'
    → 1 ≡ 1 + 1
version-txn_upgrade_once c (txn_v1 t x) m' q = absurd (cc)

-- `WireMessage for TxnFormat`.
abbrev pub txn_format_message : {Err : Type 0} → WireMessage TxnFormat (Unit {0}) Err
txn_format_message = record {
  max_version = 1;
  version = λ m. 1;
  upgrade_once = txn_upgrade_once;
  version-upgrade_once = version-txn_upgrade_once;
  version_bound = λ m. omega arith;
}
