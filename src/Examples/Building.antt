-- ===== src/Examples/Building.antt =====
-- The builders of node/core/src/tx/build.rs, run with the stand-ins on a table of seven rows.
use ticker_cash.Prelude.{
  ℕ, ◌^◌, ◌≤◌, ◌<◌, ◌≡◌, ◌↔◌, refl, some, List, [], ◌∷◌, ◌++◌, length, replicate, ok, arith, count,
  leb, ◌&&◌, not,
}
use ticker_cash.Bytes.{Bytes, bytes_eq, le_bytes}
use ticker_cash.Crypto.Hash.{sha256, hash160, double_sha256}
use ticker_cash.Crypto.Schnorr.{
  schnorr_sign, schnorr_verify, derive_pubkey, secret_scalar, nonzero, rfc6979_nonce, nonce_loop,
  sign_with, y_is_quadratic_residue, challenge, point_from_compressed, accepts_point,
}
use ticker_cash.Statement
use ticker_cash.Statement.{Statement, Approval, message, approval_message, decode_array, try_array}
use ticker_cash.Commit.Types.{HeadCommit}
use ticker_cash.Commit.Snapshot
use ticker_cash.Commit.HeadCommit
use ticker_cash.Tx.Covenant.{
  Artifacts, oracle_lock, oracle_redeem, redeem_for, table_hash, table_rows, table_entry,
}
use ticker_cash.Tx.Build.Types.{HeadUtxo, TickerUtxo, P2pkhInput, BuiltTx, finish, category_le}
use ticker_cash.Tx.Build.Sort.{sort_by_key, insert_by_key}
use ticker_cash.Tx.Build.Select.{
  Placed, find_row, has_row, check_table, row_signs, place_statements, first_ts, select_statements,
}
use ticker_cash.Tx.Build.Select.Placed.{IsSelection, select_statements_sound}
use ticker_cash.Examples.Signing.{ok_of}
use ticker_cash.Tx.Encode.{
  encode_tx, encode_inputs, encode_outputs, encode_input, encode_output, output_script_bytes,
  encode_token_prefix, token_bits, encode_varint, txid_be,
}
use ticker_cash.Tx.Script.{
  push_data, push_sized, push_int, abs_bytes, put_sign, p2pkh_locking_script, p2sh32_locking_script,
}
use ticker_cash.Tx.Sighash.{
  sighash_preimage, preimage_at, encode_spent_output, prevout_bytes, prevouts, sequences, utxos,
  signed_outputs,
}
use ticker_cash.Tx.Build.Median.{lower_median, keys_to_forge}
use ticker_cash.Tx.Build.Sign.{
  sign_drafted, sign_draft, sign_p2pkh_inputs, set_unlock, signers_from, p2pkh_placeholder, fee_cap,
  add_values,
}
use ticker_cash.Tx.Build.Update.{
  build_update, draft_update, update_tx, update_inputs, update_outputs, update_sources,
  update_unlock, update_snapshot, update_locktime, latest, placed_sigs, price_bytes,
}
use ticker_cash.Tx.Build.Median.Rank.{IsLowerMedian, lower_median_iff, keys_to_forge_needed}
use ticker_cash.Tx.Build.Update.Built.{IsUpdate, build_update-IsUpdate}
use ticker_cash.Examples.Toy.{toy, toy-CurveLaws, secret, public, one}

-- Seven rows with one key and the sources 1 to 7.
abbrev row : ℕ → Bytes
row source = public ++ (source ∷ [])

abbrev table : Bytes
table = row 1 ++ (row 2 ++ (row 3 ++ (row 4 ++ (row 5 ++ (row 6 ++ row 7)))))

abbrev minute_ts : ℕ
minute_ts = 1_792_200_060

abbrev statement : ℕ → ℕ → Statement
statement source price = record {
  source = source;
  ts = minute_ts;
  price = price;
  sig = sign_with toy one public (sha256 toy (message source minute_ts price)) one;
}

-- Not in the order of the rows.
abbrev statements : List Statement
statements =
    statement 7 29_100
    ∷ statement 2 28_900
    ∷ statement 1 29_000
    ∷ statement 4 29_050
    ∷ statement 3 28_950
    ∷ statement 5 29_010
    ∷ statement 6 40_000
    ∷ []

abbrev placed : List (Placed Statement)
placed =
    (0, statement 1 29_000)
    ∷ (1, statement 2 28_900)
    ∷ (2, statement 3 28_950)
    ∷ (3, statement 4 29_050)
    ∷ (4, statement 5 29_010)
    ∷ (5, statement 6 40_000)
    ∷ (6, statement 7 29_100)
    ∷ []

abbrev head_commit : HeadCommit
head_commit = record {
  snapshot = record { ts = 1_792_200_000; seq = 1000; price = 28_800; k = 7 };
  table_hash = table_hash toy table;
}

abbrev head : HeadUtxo
head = record {
  outpoint = record { txid_be = replicate 32 1; vout = 0 };
  value = 50_000_000;
  commit = head_commit;
  raw = HeadCommit.encode head_commit;
  category = replicate 32 2;
}

selected : select_statements toy head table statements ≡ ok placed
unfolding select_statements check_table table_rows table_hash hash160 sha256 table_entry
    place_statements row_signs find_row has_row first_ts sort_by_key insert_by_key Statement.verify
    Statement.sig_bytes decode_array try_array message le_bytes bytes_eq schnorr_verify
    point_from_compressed accepts_point y_is_quadratic_residue challenge sign_with
selected = refl

select_statements_sound_example : IsSelection toy head table statements placed
select_statements_sound_example = select_statements_sound toy head table statements placed selected

abbrev pub artifacts : Artifacts
artifacts = record {
  oracle_body = replicate 20 0xac;
  ticker_body = replicate 5 0xad;
  oracle26_body = replicate 10 0xae;
  ticker26_body = replicate 5 0xaf;
}

abbrev pub topup : P2pkhInput
topup = record {
  outpoint = record { txid_be = replicate 32 3; vout = 0 };
  value = 10_000;
  private_key = secret;
  public_key = public;
  pkh = replicate 20 4;
}

abbrev ticker : TickerUtxo
ticker = record {
  outpoint = record { txid_be = replicate 32 5; vout = 1 };
  value = 1_000;
  lock = replicate 5 0xad;
  commitment = Snapshot.encode head_commit.snapshot;
  recyclable_at = 1_792_199_000;
}

abbrev pub no_build : BuiltTx
no_build = record {
  tx = record { version = 0; inputs = []; outputs = []; locktime = 0 };
  raw = [];
  txid = [];
  size = 0;
  fee = 0;
}

abbrev updated : BuiltTx
updated =
    ok_of (build_update toy artifacts 1 head table statements (ticker ∷ []) (topup ∷ [])) no_build

updated_built :
    build_update toy artifacts 1 head table statements (ticker ∷ []) (topup ∷ [])
    ≡ some (ok updated)
unfolding build_update draft_update update_tx update_inputs update_outputs update_sources
    update_unlock update_snapshot update_locktime latest placed_sigs price_bytes lower_median
    sign_drafted sign_draft sign_p2pkh_inputs set_unlock signers_from p2pkh_placeholder fee_cap
    add_values finish category_le encode_tx encode_inputs encode_outputs encode_input encode_output
    output_script_bytes encode_token_prefix token_bits encode_varint txid_be push_data push_sized
    push_int abs_bytes put_sign p2pkh_locking_script p2sh32_locking_script oracle_lock oracle_redeem
    redeem_for sighash_preimage preimage_at encode_spent_output prevout_bytes prevouts sequences
    utxos signed_outputs schnorr_sign secret_scalar nonzero derive_pubkey rfc6979_nonce nonce_loop
    double_sha256 Snapshot.encode HeadCommit.encode select_statements check_table table_rows
    table_hash hash160 sha256 table_entry place_statements row_signs find_row has_row first_ts
    sort_by_key insert_by_key Statement.verify Statement.sig_bytes decode_array try_array message
    le_bytes bytes_eq schnorr_verify point_from_compressed accepts_point y_is_quadratic_residue
    challenge sign_with
updated_built = refl

updated_size : updated.size ≡ 1_250
unfolding build_update draft_update update_tx update_inputs update_outputs update_sources
    update_unlock update_snapshot update_locktime latest placed_sigs price_bytes lower_median
    sign_drafted sign_draft sign_p2pkh_inputs set_unlock signers_from p2pkh_placeholder fee_cap
    add_values finish category_le encode_tx encode_inputs encode_outputs encode_input encode_output
    output_script_bytes encode_token_prefix token_bits encode_varint txid_be push_data push_sized
    push_int abs_bytes put_sign p2pkh_locking_script p2sh32_locking_script oracle_lock oracle_redeem
    redeem_for sighash_preimage preimage_at encode_spent_output prevout_bytes prevouts sequences
    utxos signed_outputs schnorr_sign secret_scalar nonzero derive_pubkey rfc6979_nonce nonce_loop
    double_sha256 Snapshot.encode HeadCommit.encode select_statements check_table table_rows
    table_hash hash160 sha256 table_entry place_statements row_signs find_row has_row first_ts
    sort_by_key insert_by_key Statement.verify Statement.sig_bytes decode_array try_array message
    le_bytes bytes_eq schnorr_verify point_from_compressed accepts_point y_is_quadratic_residue
    challenge sign_with
updated_size = refl

updated_small : updated.size < 2 ^ 63
updated_small = omega (arith, updated_size)

build_update-IsUpdate_example :
    (placed : List (Placed Statement)) × (value : ℕ) × (median : ℕ) × (ts : ℕ) × (lt : ℕ)
    × IsSelection toy head table statements placed
    × IsUpdate toy artifacts head table placed (ticker ∷ []) (topup ∷ []) updated value median ts lt
build_update-IsUpdate_example =
    build_update-IsUpdate toy artifacts toy-CurveLaws 1 head table statements (ticker ∷ [])
      (topup ∷ []) updated updated_built updated_small (omega arith)

abbrev prices : List ℕ
prices = 29_100 ∷ 28_900 ∷ 29_000 ∷ 29_050 ∷ 28_950 ∷ 29_010 ∷ 40_000 ∷ []

lower_median_iff_example : (lower_median prices ≡ some 29_010) ↔ IsLowerMedian prices 29_010
lower_median_iff_example = lower_median_iff prices 29_010

-- One price is far off.
few_far : count (λ p. not (leb 28_900 p && leb p 29_100)) prices < keys_to_forge (length prices)
unfolding keys_to_forge
few_far = omega arith

keys_to_forge_needed_example : (28_900 ≤ 29_010) × (29_010 ≤ 29_100)
keys_to_forge_needed_example =
    keys_to_forge_needed prices 28_900 29_100 29_010 few_far
      ((lower_median_iff prices 29_010).1 (omega arith, omega arith, omega arith))
