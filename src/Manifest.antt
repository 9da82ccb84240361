-- ===== src/Manifest.antt =====
-- node/core/src/manifest.rs: the deployment manifest and the checks that its loader makes.
pub mod Rows
pub mod Table
pub mod Valid
use ticker_cash.Prelude.{
  ℕ, suc, Bool, true, false, ◌&&◌, ◌||◌, not, Option, none, some, List, [], ◌∷◌, ◌++◌, length,
  reverse, ◌==◌, ltb, if◌then◌else◌, Result, ok, err, ◌>>=◌, ◌>>◌, refuse_if,
}
use ticker_cash.Bytes.{Bytes, bytes_eq}
use ticker_cash.Text.{Text, codes, eq_ignore_ascii_case}
use ticker_cash.Constants.{quorum, max_rows}
use ticker_cash.External.{External}
use ticker_cash.Sources.{Source, source_by_id}
use ticker_cash.Statement.{decode_array}
use ticker_cash.Tx.Covenant.{
  Artifacts, oracle_lock, ticker_lock, oracle26_lock, ticker26_lock, table_hash,
}

abbrev pub manifest_version : ℕ
manifest_version = 27

abbrev pub legacy_manifest_version : ℕ
legacy_manifest_version = 26

pub record TableRow : Type 0 where
  pub row : ℕ
  pub source : ℕ
  pub pubkey : Text
  pub operator : Text
  pub api : Text

pub record ElectrumEndpoint : Type 0 where
  pub host : Text
  pub port : ℕ
  pub tls : Bool

pub record Manifest : Type 0 where
  pub version : ℕ
  pub network : Text
  pub category : Text
  pub genesis_txid : Text
  pub oracle_lock : Text
  pub ticker_lock : Text
  pub table_hash : Text
  pub table : List TableRow
  pub electrum : List ElectrumEndpoint

-- The errors of files and of JSON carry those of the standard library and of serde_json.
pub data ManifestError : Type 0 where
  io json : Text → ManifestError
  bad_version legacy rows row_order bad_pubkey : ℕ → ManifestError
  unknown_source duplicate_key duplicate_source : ℕ → ℕ → ManifestError
  bad_category bad_oracle_lock bad_ticker_lock bad_table_hash bad_network no_electrum :
      ManifestError

abbrev pub is_none : {A : Type 0} → Option A → Bool
is_none none = true
is_none (some a) = false

-- `expect("validated")`, where the callers have validated the manifest.
abbrev pub expect : Option Bytes → Bytes
expect none = []
expect (some bytes) = bytes

-- The loop over the earlier rows.
unfoldable pub check_others : List TableRow → TableRow → Result ManifestError (Unit {0})
check_others [] r = ok tt
check_others (o ∷ rest) r = do
  refuse_if (eq_ignore_ascii_case o.pubkey r.pubkey) (duplicate_key o.row r.row)
  refuse_if (o.source == r.source) (duplicate_source o.row r.row)
  check_others rest r

module _ (x : External) where
  -- `TableRow::pubkey_bytes`
  unfoldable pub pubkey_bytes : TableRow → Option Bytes
  pubkey_bytes r = decode_array x 33 r.pubkey

  -- One round of the loop over the rows, behind the rows before it.
  unfoldable pub check_row : List TableRow → ℕ → TableRow → Result ManifestError (Unit {0})
  check_row before i r = do
    refuse_if (not (r.row == i)) (row_order r.row)
    refuse_if (is_none (source_by_id r.source)) (unknown_source r.row r.source)
    refuse_if (is_none (pubkey_bytes r)) (bad_pubkey r.row)
    check_others before r

  unfoldable pub check_rows : List TableRow → ℕ → List TableRow → Result ManifestError (Unit {0})
  check_rows before i [] = ok tt
  check_rows before i (r ∷ rest) = do
    check_row before i r
    check_rows (before ++ (r ∷ [])) (suc i) rest

  unfoldable pub validate_rows : List TableRow → Result ManifestError (Unit {0})
  validate_rows table = do
    refuse_if (ltb (length table) quorum || ltb max_rows (length table)) (rows (length table))
    check_rows [] 0 table

  unfoldable pub table_bytes : List TableRow → Bytes
  table_bytes [] = []
  table_bytes (r ∷ rest) = (expect (pubkey_bytes r) ++ (r.source ∷ [])) ++ table_bytes rest

  -- `Manifest::table_hash_bytes`
  unfoldable pub table_hash_bytes : Manifest → Bytes
  table_hash_bytes m = table_hash x (table_bytes m.table)

  unfoldable pub category_bytes : Manifest → Bytes
  category_bytes m = expect (decode_array x 32 m.category)

  unfoldable pub category_vm : Manifest → Bytes
  category_vm m = reverse (category_bytes m)

  -- `hex::decode(..).map(|c| c.len() != 32).unwrap_or(true)`
  abbrev pub is_bad_category : Option Bytes → Bool
  is_bad_category none = true
  is_bad_category (some c) = not (length c == 32)

  module _ (a : Artifacts) where
    -- The two locks of a version, if it is a known one.
    unfoldable pub expected_locks : ℕ → Result ManifestError (Bytes × Bytes)
    expected_locks version =
        if version == manifest_version
        then ok (oracle_lock x a, ticker_lock a)
        else if version == legacy_manifest_version
        then ok (oracle26_lock x a, ticker26_lock a)
        else err (bad_version version)

    -- `Manifest::validate`
    unfoldable pub validate : Manifest → Result ManifestError (Unit {0})
    validate m = do
      expected ← expected_locks m.version
      refuse_if
          (not (bytes_eq m.network (codes "chipnet")) && not (bytes_eq m.network (codes "mainnet")))
          bad_network
      validate_rows m.table
      refuse_if (length m.electrum == 0) no_electrum
      refuse_if (is_bad_category (x.hex_decode m.category)) bad_category
      refuse_if (not (bytes_eq (x.hex_encode expected.0) m.oracle_lock)) bad_oracle_lock
      refuse_if (not (bytes_eq (x.hex_encode expected.1) m.ticker_lock)) bad_ticker_lock
      refuse_if (not (bytes_eq (x.hex_encode (table_hash_bytes m)) m.table_hash)) bad_table_hash
      ok tt

    -- `Manifest::load`, on the text of the file and the manifest that serde_json reads from it.
    unfoldable pub load :
        Result Text Text → (Text → Result Text Manifest) → Result ManifestError Manifest
    load (err e) from_str = err (io e)
    load (ok raw) from_str = elim (from_str raw) [
      | err e ↦ err (json e)
      | ok m ↦ validate m >>= λ valid. ok m
    ]

    -- `Manifest::migrated`
    unfoldable pub migrated : Manifest → Manifest
    migrated m = record m {
      version = manifest_version;
      oracle_lock = x.hex_encode (oracle_lock x a);
      ticker_lock = x.hex_encode (ticker_lock a);
    }

  -- `Manifest::set_table`
  unfoldable pub set_table : Manifest → List TableRow → Result ManifestError Manifest
  set_table m table = do
    validate_rows table
    ok (record m { table_hash = x.hex_encode (table_hash x (table_bytes table)); table = table })

unfoldable pub require_current : Manifest → Result ManifestError (Unit {0})
require_current m = refuse_if (not (m.version == manifest_version)) (legacy m.version)
