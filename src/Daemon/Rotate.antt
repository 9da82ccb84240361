-- ===== src/Daemon/Rotate.antt =====
-- node/daemon/src/rotate.rs: what a rotation changes, and the transaction and the manifest of it. The files
-- of the table and of the approvals are read by serde_json.
pub mod Written
use ticker_cash.Prelude.{
  ℕ, Bool, true, false, not, Option, none, some, List, [], ◌∷◌, length, ◌==◌, if◌then◌else◌, Result,
  ok, err, ◌>>=◌, ◌>>◌, ok_or, refuse_if,
}
use ticker_cash.Bytes.{Bytes, bytes_eq}
use ticker_cash.Text.{Text}
use ticker_cash.External.{External}
use ticker_cash.Statement.{Approval}
use ticker_cash.Manifest.{
  TableRow, Manifest, ManifestError, legacy_manifest_version, validate_rows, table_bytes,
  table_hash_bytes, migrated, set_table,
}
use ticker_cash.Tx.Script.{p2pkh_locking_script}
use ticker_cash.Tx.Cashaddr.{CashAddrDecodeError, from_network, decode_p2pkh_cashaddr}
use ticker_cash.Tx.Covenant.{Artifacts, oracle_lock, table_hash}
use ticker_cash.Tx.Build.Types.{HeadUtxo, LegacyHeadUtxo, BuiltTx}
use ticker_cash.Tx.Build.Sign.{Outcome}
use ticker_cash.Tx.Build.Rotate.{build_rotate, build_migration, migration_tail}
use ticker_cash.Daemon.{Failure, no_head, table_rotated, not_built, Server}
use ticker_cash.Daemon.Chain.{answered, find_head, find_legacy_head}

pub record Plan : Type 0 where
  pub next_lock : Bytes
  pub tail : Bytes
  pub rows : Option (List TableRow)

-- The errors that `anyhow` carries.
pub data RotateError : Type 0 where
  migrate_alone same_table one_of bad_network no_approvals : RotateError
  bad_rows : ManifestError → RotateError
  bad_address : CashAddrDecodeError → RotateError
  bad_version : ℕ → RotateError
  failed : Failure → RotateError

-- What is built, the id that the node returned, and the manifest that is written.
pub record Rotated : Type 0 where
  pub built : BuiltTx
  pub txid : Option Text
  pub manifest : Option Manifest

-- `?` on the errors of the callees.
abbrev pub with_rows : {A : Type 0} → Result ManifestError A → Result RotateError A
with_rows (ok a) = ok a
with_rows (err e) = err (bad_rows e)

abbrev pub with_address : {A : Type 0} → Result CashAddrDecodeError A → Result RotateError A
with_address (ok a) = ok a
with_address (err e) = err (bad_address e)

abbrev pub with_failure : {A : Type 0} → Result Failure A → Result RotateError A
with_failure (ok a) = ok a
with_failure (err e) = err (failed e)

-- Behind the building: a dry run stops, otherwise the transaction is sent and the manifest written.
abbrev pub send :
    Server
    → (dry_run : Bool) → Result RotateError (Option Manifest)
    → BuiltTx
    → Result RotateError Rotated
send server true rewrite built = ok (record { built = built; txid = none; manifest = none })
send server false rewrite built = do
  txid ← with_failure (answered (server.broadcast_raw built.raw))
  manifest ← rewrite
  ok (record { built = built; txid = some txid; manifest = manifest })

abbrev pub send_built :
    Server
    → (dry_run : Bool) → Result RotateError (Option Manifest)
    → Outcome BuiltTx
    → Option (Result RotateError Rotated)
send_built server dry_run rewrite none = none
send_built server dry_run rewrite (some (err e)) = some (err (failed (not_built e)))
send_built server dry_run rewrite (some (ok built)) = some (send server dry_run rewrite built)

module _ (x : External) where
  -- `set_table` on the rows of a plan, if it has any.
  abbrev pub rewritten : Manifest → Option (List TableRow) → Result RotateError (Option Manifest)
  rewritten m none = ok none
  rewritten m (some rows) = with_rows (set_table x m rows) >>= λ m'. ok (some m')

  module _ (a : Artifacts) where
    -- The plan of a new table, which `load_rows` has validated.
    unfoldable pub change_table : Manifest → List TableRow → Result RotateError Plan
    change_table m rows = do
      with_rows (validate_rows x rows)
      let th = table_hash x (table_bytes x rows)
      refuse_if (bytes_eq th (table_hash_bytes x m)) same_table
      ok (record { next_lock = oracle_lock x a; tail = th; rows = some rows })

    unfoldable pub retire : Manifest → Text → Result RotateError Plan
    retire m addr = do
      prefix ← ok_or (from_network m.network) bad_network
      pkh ← with_address (decode_p2pkh_cashaddr addr prefix)
      ok (record { next_lock = p2pkh_locking_script pkh; tail = []; rows = none })

    unfoldable pub plan :
        Manifest
        → (table : Option (List TableRow)) (retire_to : Option Text) (migrate : Bool)
        → Result RotateError Plan
    plan m none none true = ok (record {
      next_lock = oracle_lock x a;
      tail = migration_tail (table_hash_bytes x m);
      rows = none;
    })
    plan m none (some addr) true = err migrate_alone
    plan m (some rows) retire_to true = err migrate_alone
    plan m (some rows) none false = change_table m rows
    plan m none (some addr) false = retire m addr
    plan m none none false = err one_of
    plan m (some rows) (some addr) false = err one_of

    -- The head must have the manifest's table.
    abbrev pub rotate_head :
        (fuel : ℕ)
        → Server
        → Manifest
        → List Approval
        → Plan
        → Bool
        → Result Failure (Option HeadUtxo)
        → Option (Result RotateError Rotated)
    rotate_head fuel server m approvals p dry_run (err e) = some (err (failed e))
    rotate_head fuel server m approvals p dry_run (ok none) = some (err (failed no_head))
    rotate_head fuel server m approvals p dry_run (ok (some head)) =
        if not (bytes_eq head.commit.table_hash (table_hash_bytes x m))
        then some (err (failed table_rotated))
        else send_built server dry_run (rewritten m p.rows)
            (build_rotate x a fuel head (table_bytes x m.table) p.next_lock p.tail approvals [])

    unfoldable pub rotate :
        (fuel : ℕ)
        → Server
        → Manifest
        → Plan
        → List Approval
        → (dry_run : Bool) → Option (Result RotateError Rotated)
    rotate fuel server m p approvals dry_run =
        if length approvals == 0
        then some (err no_approvals)
        else rotate_head fuel server m approvals p dry_run (find_head x server m)

    abbrev pub migrate_head :
        (fuel : ℕ)
        → Server
        → Manifest
        → List Approval
        → Bool
        → Result Failure (Option LegacyHeadUtxo)
        → Option (Result RotateError Rotated)
    migrate_head fuel server m approvals dry_run (err e) = some (err (failed e))
    migrate_head fuel server m approvals dry_run (ok none) = some (err (failed no_head))
    migrate_head fuel server m approvals dry_run (ok (some head)) =
        if not (bytes_eq head.commit.table_hash (table_hash_bytes x m))
        then some (err (failed table_rotated))
        else send_built server dry_run (ok (some (migrated x a m)))
            (build_migration x a fuel head (table_bytes x m.table) approvals [])

    unfoldable pub migrate :
        (fuel : ℕ)
        → Server
        → Manifest
        → List Approval
        → (dry_run : Bool) → Option (Result RotateError Rotated)
    migrate fuel server m approvals dry_run =
        if not (m.version == legacy_manifest_version)
        then some (err (bad_version m.version))
        else if length approvals == 0
        then some (err no_approvals)
        else migrate_head fuel server m approvals dry_run (find_legacy_head x a server m)
