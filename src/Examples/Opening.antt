-- ===== src/Examples/Opening.antt =====
-- The deployment that node/daemon/src/genesis.rs opens over one coin.
use ticker_cash.Prelude.{
  ◌*◌, ◌-◌, ◌^◌, ◌%◌, ◌/◌, reverse, ℕ, ◌≡◌, refl, some, [], ◌∷◌, ◌++◌, replicate, ok, arith,
}
use ticker_cash.Bytes.{bytes_eq, le_bytes}
use ticker_cash.Crypto.Hash.{sha256, hash160, double_sha256}
use ticker_cash.Crypto.Schnorr.{
  schnorr_sign, derive_pubkey, secret_scalar, nonzero, rfc6979_nonce, nonce_loop, sign_with,
  y_is_quadratic_residue, challenge, point_from_compressed,
}
use ticker_cash.Statement.{decode_array, try_array}
use ticker_cash.Commit.Snapshot
use ticker_cash.Commit.HeadCommit
use ticker_cash.Tx.Covenant.{
  oracle_lock, oracle_redeem, redeem_for, table_hash, table_rows, table_entry,
}
use ticker_cash.Tx.Build.Types.{BuiltTx, finish, category_le}
use ticker_cash.Tx.Build.Sort.{sort_by_key, insert_by_key}
use ticker_cash.Tx.Build.Select.{find_row, has_row}
use ticker_cash.Tx.Encode.{
  encode_tx, encode_inputs, encode_outputs, encode_input, encode_output, output_script_bytes,
  encode_token_prefix, token_bits, encode_varint, txid_be,
}
use ticker_cash.Tx.Script.{
  push_data, push_sized, push_int, abs_bytes, put_sign, p2pkh_locking_script, p2sh32_locking_script,
}
use ticker_cash.Tx.Sighash.{
  sighash_preimage, preimage_at, encode_spent_output, prevout_bytes, prevouts, sequences, utxos,
  signed_outputs,
}
use ticker_cash.Tx.Build.Sign.{
  sign_drafted, sign_draft, sign_p2pkh_inputs, set_unlock, signers_from, p2pkh_placeholder, fee_cap,
  add_values,
}
use ticker_cash.Examples.Toy.{secret, public}
use ticker_cash.Examples.Building.{artifacts}
use ticker_cash.Tx.Build.Genesis.{build_genesis, draft_genesis, genesis_tx, genesis_outputs}
use ticker_cash.Prelude.{suc, true, Result, Option, err, none}
use ticker_cash.Tx.Types.{TxOutpoint}
use ticker_cash.Text.{codes, eq_ignore_ascii_case}
use ticker_cash.Keyfile.{KeyMaterial}
use ticker_cash.Sources.{sources, source_by_id}
use ticker_cash.Manifest.{
  TableRow, Manifest, pubkey_bytes, check_others, check_row, check_rows, validate_rows, table_bytes,
  table_hash_bytes, expected_locks, validate, category_bytes, require_current,
}
use ticker_cash.Commit.Clock.{current_minute}
use ticker_cash.Daemon.{Server}
use ticker_cash.Daemon.Genesis.{
  GenesisSpec, GenesisError, provisional_manifest, funding_input, initial_ts, open_with,
}
use ticker_cash.Daemon.Genesis.Written.{open_with_written}
use ticker_cash.Examples.Pools.{to_hex, hexed, hexed-HexLaws}

-- Row `i` with the key 2, 0, ..., `n`.
abbrev row : ℕ → ℕ → TableRow
row i n = record {
  row = i;
  source = suc i;
  pubkey = to_hex (2 ∷ (replicate 31 0 ++ (n ∷ [])));
  operator = [];
  api = [];
}

abbrev spec : GenesisSpec
spec = record {
  network = codes "chipnet";
  table = row 0 1 ∷ row 1 2 ∷ row 2 3 ∷ row 3 4 ∷ row 4 5 ∷ row 5 6 ∷ row 6 7 ∷ [];
  electrum = record { host = codes "x"; port = 1; tls = true } ∷ [];
}

abbrev op : TxOutpoint
op = record { txid_be = replicate 32 6; vout = 0 }

abbrev key : KeyMaterial
key = record { private_key = secret; public_key = public; pkh = replicate 20 4 }

-- The node computes the id itself.
abbrev node : Server
node = record {
  list_unspent = λ scripthash. ok [];
  median_time_past = ok 0;
  broadcast_raw = λ raw. ok (to_hex (txid_be hexed raw));
}

abbrev empty_manifest : Manifest
empty_manifest = record {
  version = 0;
  network = [];
  category = [];
  genesis_txid = [];
  oracle_lock = [];
  ticker_lock = [];
  table_hash = [];
  table = [];
  electrum = [];
}

abbrev manifest_in : {E : Type 0} → Result E Manifest → Manifest
manifest_in (ok m) = m
manifest_in (err e) = empty_manifest

abbrev written_in : Option (Result GenesisError Manifest) → Manifest
written_in none = empty_manifest
written_in (some r) = manifest_in r

abbrev provisional : Manifest
provisional = manifest_in (provisional_manifest hexed artifacts spec)

abbrev written : Manifest
written =
    written_in
      (open_with hexed artifacts 1 node provisional key (op, 100_000_000) 50_000_000 1_792_200_065)

is_provisional : provisional_manifest hexed artifacts spec ≡ ok provisional
unfolding provisional_manifest open_with validate expected_locks validate_rows check_rows check_row
    check_others pubkey_bytes source_by_id sources eq_ignore_ascii_case table_hash_bytes table_bytes
    current_minute build_genesis draft_genesis genesis_tx genesis_outputs sign_drafted sign_draft
    sign_p2pkh_inputs set_unlock signers_from p2pkh_placeholder fee_cap add_values finish
    category_le encode_tx encode_inputs encode_outputs encode_input encode_output
    output_script_bytes encode_token_prefix token_bits encode_varint txid_be push_data push_sized
    push_int abs_bytes put_sign p2pkh_locking_script p2sh32_locking_script oracle_lock oracle_redeem
    redeem_for sighash_preimage preimage_at encode_spent_output prevout_bytes prevouts sequences
    utxos signed_outputs schnorr_sign secret_scalar nonzero derive_pubkey rfc6979_nonce nonce_loop
    double_sha256 Snapshot.encode HeadCommit.encode table_rows table_hash hash160 sha256 table_entry
    find_row has_row sort_by_key insert_by_key decode_array try_array le_bytes bytes_eq
    point_from_compressed y_is_quadratic_residue challenge sign_with
is_provisional = refl

is_written :
    open_with hexed artifacts 1 node provisional key (op, 100_000_000) 50_000_000 1_792_200_065
    ≡ some (ok written)
unfolding provisional_manifest open_with validate expected_locks validate_rows check_rows check_row
    check_others pubkey_bytes source_by_id sources eq_ignore_ascii_case table_hash_bytes table_bytes
    current_minute build_genesis draft_genesis genesis_tx genesis_outputs sign_drafted sign_draft
    sign_p2pkh_inputs set_unlock signers_from p2pkh_placeholder fee_cap add_values finish
    category_le encode_tx encode_inputs encode_outputs encode_input encode_output
    output_script_bytes encode_token_prefix token_bits encode_varint txid_be push_data push_sized
    push_int abs_bytes put_sign p2pkh_locking_script p2sh32_locking_script oracle_lock oracle_redeem
    redeem_for sighash_preimage preimage_at encode_spent_output prevout_bytes prevouts sequences
    utxos signed_outputs schnorr_sign secret_scalar nonzero derive_pubkey rfc6979_nonce nonce_loop
    double_sha256 Snapshot.encode HeadCommit.encode table_rows table_hash hash160 sha256 table_entry
    find_row has_row sort_by_key insert_by_key decode_array try_array le_bytes bytes_eq
    point_from_compressed y_is_quadratic_residue challenge sign_with
is_written = refl

open_with_written_example :
    (validate hexed artifacts written ≡ ok tt)
    × (require_current written ≡ ok tt)
    × (written.table ≡ spec.table)
    × (category_bytes hexed written ≡ op.txid_be)
    × ((built : BuiltTx) × (build_genesis hexed artifacts 1
            (funding_input key (op, 100_000_000))
            (table_hash_bytes hexed written)
            50_000_000
            (initial_ts 1_792_200_065)
          ≡ some (ok built))
        × (node.broadcast_raw built.raw ≡ ok written.genesis_txid)
        × ((change : ℕ) × (built.tx.outputs
              ≡ record {
                value = 50_000_000;
                locking_script = oracle_lock hexed artifacts;
                token = some (record {
                  category_le = reverse op.txid_be;
                  capability = 2;
                  commitment =
                      le_bytes 4 ((1_792_200_065 / 60 % 2 ^ 32 - 1) * 60 % 2 ^ 32)
                      ++ (replicate 13 0 ++ table_hash_bytes hexed written);
                  amount = 0;
                });
              }
                ∷ record {
                  value = change;
                  locking_script = p2pkh_locking_script key.pkh;
                  token = none;
                }
                ∷ [])))
open_with_written_example =
    open_with_written hexed artifacts hexed-HexLaws op (ground arith) refl 1 node spec provisional
      written key 100_000_000 50_000_000 1_792_200_065 is_provisional is_written
