-- ===== src/Examples/Manifests.antt =====
-- A deployment of node/core/src/manifest.rs with seven rows, and a price of sources.rs.
use ticker_cash.Prelude.{
  ℕ, suc, ◌≡◌, ◌↔◌, ◌⊎◌, refl, none, some, true, List, [], ◌∷◌, ◌++◌, length, replicate,
  if◌then◌else◌, map, ok, err,
}
use ticker_cash.Bytes.{Bytes, bytes_eq}
use ticker_cash.Text.{Text, codes, eq_ignore_ascii_case}
use ticker_cash.Statement.{decode_array, try_array}
use ticker_cash.Crypto.Hash.{hash160, double_sha256}
use ticker_cash.Tx.Covenant.{
  oracle26_lock, oracle26_redeem, redeem_for, table_hash, table_rows, table_entry,
}
use ticker_cash.Tx.Script.{p2sh32_locking_script, push_data, push_sized}
use ticker_cash.Json.{Json, string}
use ticker_cash.Sources.{Source, usd, sources, source_by_id, extract_price}
use ticker_cash.Sources.Extract.{FirstPrice, extract_price_iff}
use ticker_cash.Manifest.{
  TableRow, Manifest, ManifestError, pubkey_bytes, check_others, check_row, check_rows,
  validate_rows, table_bytes, table_hash_bytes, expected_locks, validate, set_table,
}
use ticker_cash.Manifest.Rows.{IsTable, validate_rows_iff}
use ticker_cash.Manifest.Table.{table_entry-table_bytes}
use ticker_cash.Manifest.Valid.{set_table_valid}
use ticker_cash.Examples.Toy.{toy}
use ticker_cash.Examples.Building.{artifacts}

-- An answer with one field, which the pointer of one exchange reads.
abbrev one_field : Json
one_field = record {
  Value = Text;
  from_slice = λ bytes. ok bytes;
  pointer = λ v p. (if bytes_eq p (codes "/result/BCHUSD/c/0") then some v else none);
  node = λ v. string v;
}

-- The identifiers of the registry are 1 to 16.
ids_are_contiguous :
    map (λ s. Source.id s) sources
    ≡ 1 ∷ 2 ∷ 3 ∷ 4 ∷ 5 ∷ 6 ∷ 7 ∷ 8 ∷ 9 ∷ 10 ∷ 11 ∷ 12 ∷ 13 ∷ 14 ∷ 15 ∷ 16 ∷ []
unfolding sources
ids_are_contiguous = refl

abbrev kraken : Source
kraken = record {
  id = 1;
  name = codes "kraken";
  label = codes "Kraken";
  host = codes "api.kraken.com";
  path = codes "/0/public/Ticker?pair=BCHUSD";
  quote = usd;
  pointers = codes "/result/BCHUSD/c/0" ∷ [];
}

kraken_is_1 : source_by_id 1 ≡ some kraken
unfolding source_by_id sources
kraken_is_1 = refl

extract_price_iff_example :
    (extract_price one_field kraken (codes "277.15") ≡ ok 27_715_000_000) ↔ (
      (v : Text) × (one_field.from_slice (codes "277.15") ≡ ok v)
      × FirstPrice one_field v kraken.pointers 27_715_000_000)
extract_price_iff_example = extract_price_iff one_field kraken (codes "277.15") 27_715_000_000

-- Row `i` with the key 2, 0, ..., `n`.
abbrev row : ℕ → ℕ → TableRow
row i n = record {
  row = i;
  source = suc i;
  pubkey = 2 ∷ (replicate 31 0 ++ (n ∷ []));
  operator = [];
  api = [];
}

abbrev seven : List TableRow
seven = row 0 1 ∷ row 1 2 ∷ row 2 3 ∷ row 3 4 ∷ row 4 5 ∷ row 5 6 ∷ row 6 7 ∷ []

-- The keys of a later table.
abbrev rotated : List TableRow
rotated = row 0 11 ∷ row 1 12 ∷ row 2 13 ∷ row 3 14 ∷ row 4 15 ∷ row 5 16 ∷ row 6 17 ∷ []

seven_accepted : validate_rows toy seven ≡ ok tt
unfolding validate_rows check_rows check_row check_others pubkey_bytes decode_array try_array
    source_by_id sources eq_ignore_ascii_case
seven_accepted = refl

validate_rows_iff_example : (validate_rows toy seven ≡ ok tt) ↔ IsTable toy seven
validate_rows_iff_example = validate_rows_iff toy seven

seven-IsTable : IsTable toy seven
seven-IsTable = (validate_rows_iff toy seven).0 seven_accepted

table_entry-table_bytes_example :
    (table_rows (table_bytes toy seven) ≡ length seven)
    × ((pk : Bytes) × (pubkey_bytes toy (row 4 5) ≡ some pk)
        × (table_entry (table_bytes toy seven) 4 ≡ some (pk, 5)))
table_entry-table_bytes_example = table_entry-table_bytes toy seven 4 (row 4 5) seven-IsTable refl

abbrev deployed : Manifest
deployed = record {
  version = 26;
  network = codes "chipnet";
  category = replicate 32 0x11;
  genesis_txid = replicate 32 0x22;
  oracle_lock = oracle26_lock toy artifacts;
  ticker_lock = replicate 5 0xaf;
  table_hash = table_hash toy (table_bytes toy seven);
  table = seven;
  electrum = record { host = codes "x"; port = 1; tls = true } ∷ [];
}

deployed_valid : validate toy artifacts deployed ≡ ok tt
unfolding validate expected_locks validate_rows check_rows check_row check_others pubkey_bytes
    decode_array try_array source_by_id sources eq_ignore_ascii_case bytes_eq table_hash_bytes
    oracle26_lock p2sh32_locking_script double_sha256 oracle26_redeem redeem_for push_data
    push_sized table_hash hash160 table_bytes
deployed_valid = refl

set_table_valid_example :
    ((m' : Manifest) × (set_table toy deployed rotated ≡ ok m')
      × (validate toy artifacts m' ≡ ok tt)
      × (m'.table ≡ rotated)
      × (m'.table_hash ≡ toy.hex_encode (table_hash toy (table_bytes toy rotated)))
      × IsTable toy rotated)
    ⊎ ((e : ManifestError) × (set_table toy deployed rotated ≡ err e) × ¬ IsTable toy rotated)
set_table_valid_example = set_table_valid toy artifacts deployed rotated deployed_valid
