-- ===== src/Examples/Turning.antt =====
-- A rotation to a new table (node/daemon/src/rotate.rs), approved by four rows of seven.
use ticker_cash.Commit.HeadCommit
use ticker_cash.Commit.Snapshot
use ticker_cash.Statement
use ticker_cash.Bytes.{u64_mod, bytes_eq, from_le_bytes, le_bytes}
use ticker_cash.Commit.Legacy.{encode_head26, encode_snapshot26}
use ticker_cash.Crypto.Hash.{double_sha256, hash160, sha256}
use ticker_cash.Crypto.Schnorr.{
  accepts_point, challenge, derive_pubkey, nonce_loop, nonzero, point_from_compressed,
  rfc6979_nonce, schnorr_sign, schnorr_verify, secret_scalar, sign_with, y_is_quadratic_residue,
}
use ticker_cash.Daemon.Chain.{
  best_head, capability_eq, find_head, keep_newer, minting_at, minting_from, newer, nft_in,
  outpoint,
}
use ticker_cash.Daemon.Rotate.{Plan, RotateError, Rotated, change_table, plan, rotate}
use ticker_cash.Daemon.Rotate.Written.{rotate_written}
use ticker_cash.Electrum.{txid_of}
use ticker_cash.Examples.Building.{artifacts, no_build}
use ticker_cash.Examples.Posting.{key, manifest, rows, server}
use ticker_cash.Examples.Toy.{one, toy, toy-CurveLaws}
use ticker_cash.Manifest.{
  Manifest, TableRow, category_bytes, check_others, check_row, check_rows, expected_locks,
  pubkey_bytes, set_table, table_bytes, table_hash_bytes, validate, validate_rows,
}
use ticker_cash.Prelude.{
  reverse, ◌++◌, List, Option, Result, [], arith, false, none, ok, refl, replicate, some, suc, take,
  true, ℕ, ◌+◌, ◌<◌, ◌^◌, ◌∷◌, ◌≡◌,
}
use ticker_cash.Sources.{source_by_id, sources}
use ticker_cash.Statement.{Approval, Statement, approval_message, decode_array, message, try_array}
use ticker_cash.Text.{codes, eq_ignore_ascii_case}
use ticker_cash.Tx.Build.Genesis.{build_genesis, draft_genesis, genesis_outputs, genesis_tx}
use ticker_cash.Tx.Build.Rotate.{
  approval_sigs, build_migration, build_rotate, draft_rotate, migration_tail, rotate_generic,
  rotate_inputs, rotate_outputs, rotate_sources, rotate_tx, rotate_unlock, state_of,
}
use ticker_cash.Tx.Build.Select.{
  check_table, find_row, has_row, place_all_approvals, place_approval, place_approvals, row_has_key,
}
use ticker_cash.Tx.Build.Sign.{
  add_values, fee_cap, p2pkh_placeholder, set_unlock, sign_draft, sign_drafted, sign_p2pkh_inputs,
  signers_from,
}
use ticker_cash.Tx.Build.Sort.{insert_by_key, sort_by_key}
use ticker_cash.Tx.Build.Types.{HeadUtxo, category_le, finish}
use ticker_cash.Tx.Covenant.{
  electrum_scripthash, oracle26_lock, oracle26_redeem, oracle_lock, oracle_redeem, redeem_for,
  table_entry, table_hash, table_rows,
}
use ticker_cash.Tx.Encode.{
  encode_input, encode_inputs, encode_output, encode_outputs, encode_token_prefix, encode_tx,
  encode_varint, output_script_bytes, token_bits, txid_be,
}
use ticker_cash.Tx.Script.{
  abs_bytes, p2pkh_locking_script, p2sh32_locking_script, push_data, push_int, push_sized, put_sign,
}
use ticker_cash.Tx.Sighash.{
  encode_spent_output, preimage_at, prevout_bytes, prevouts, sequences, sighash_preimage,
  signed_outputs, utxos,
}

abbrev deployed : Manifest
deployed = record manifest { electrum = record { host = codes "x"; port = 1; tls = true } ∷ [] }

-- Row `i` under a new key.
abbrev new_row : ℕ → TableRow
new_row i = record { row = i; source = suc i; pubkey = key (i + 7); operator = []; api = [] }

abbrev new_rows : List TableRow
new_rows = new_row 0 ∷ new_row 1 ∷ new_row 2 ∷ new_row 3 ∷ new_row 4 ∷ new_row 5 ∷ new_row 6 ∷ []

abbrev planned : Plan
planned = record {
  next_lock = oracle_lock toy artifacts;
  tail = table_hash toy (table_bytes toy new_rows);
  rows = some new_rows;
}

abbrev approval_of : ℕ → Approval
approval_of i = record {
  pubkey = key i;
  old_table_hash = table_hash toy (table_bytes toy rows);
  next_lock = planned.next_lock;
  tail = planned.tail;
  sig =
      sign_with toy one (key i)
        (sha256 toy (
          approval_message (replicate 32 0x11) (table_hash toy (table_bytes toy rows))
            planned.next_lock planned.tail))
        one;
}

abbrev approvals : List Approval
approvals = approval_of 0 ∷ approval_of 2 ∷ approval_of 3 ∷ approval_of 6 ∷ []

abbrev head_in : {E : Type 0} → Result E (Option HeadUtxo) → HeadUtxo
head_in (ok (some head)) = head
head_in _ = record {
  outpoint = record { txid_be = []; vout = 0 };
  value = 0;
  commit = record { snapshot = record { ts = 0; seq = 0; price = 0; k = 0 }; table_hash = [] };
  raw = [];
  category = [];
}

abbrev rotated_in : Option (Result RotateError Rotated) → Rotated
rotated_in (some (ok r)) = r
rotated_in _ = record { built = no_build; txid = none; manifest = none }

abbrev found : HeadUtxo
found = head_in (find_head toy server deployed)

abbrev turned : Rotated
turned = rotated_in (rotate toy artifacts 1 server deployed planned approvals false)

deployed_valid : validate toy artifacts deployed ≡ ok tt
unfolding plan change_table table_hash_bytes table_bytes set_table validate expected_locks
    validate_rows check_rows check_row check_others pubkey_bytes source_by_id sources
    eq_ignore_ascii_case oracle_lock oracle_redeem redeem_for push_data push_sized
    p2sh32_locking_script double_sha256 sha256 hash160 table_hash decode_array try_array bytes_eq
deployed_valid = refl

is_planned : plan toy artifacts deployed (some new_rows) none false ≡ ok planned
unfolding plan change_table table_hash_bytes table_bytes set_table validate expected_locks
    validate_rows check_rows check_row check_others pubkey_bytes source_by_id sources
    eq_ignore_ascii_case oracle_lock oracle_redeem redeem_for push_data push_sized
    p2sh32_locking_script double_sha256 sha256 hash160 table_hash decode_array try_array bytes_eq
is_planned = refl

is_found : find_head toy server deployed ≡ ok (some found)
unfolding find_head minting_at minting_from nft_in capability_eq best_head keep_newer newer outpoint
    txid_of HeadCommit.decode Snapshot.decode HeadCommit.encode Snapshot.encode le_bytes
    from_le_bytes category_bytes electrum_scripthash plan change_table table_hash_bytes table_bytes
    set_table validate expected_locks validate_rows check_rows check_row check_others pubkey_bytes
    source_by_id sources eq_ignore_ascii_case oracle_lock oracle_redeem redeem_for push_data
    push_sized p2sh32_locking_script double_sha256 sha256 hash160 table_hash decode_array try_array
    bytes_eq
is_found = refl

is_turned : rotate toy artifacts 1 server deployed planned approvals false ≡ some (ok turned)
unfolding plan change_table rotate find_head minting_at minting_from nft_in capability_eq best_head
    keep_newer newer outpoint txid_of HeadCommit.decode Snapshot.decode from_le_bytes category_bytes
    table_hash_bytes table_bytes electrum_scripthash set_table validate expected_locks validate_rows
    check_rows check_row check_others pubkey_bytes source_by_id sources eq_ignore_ascii_case
    build_rotate build_migration rotate_generic draft_rotate rotate_tx rotate_inputs rotate_outputs
    rotate_sources rotate_unlock approval_sigs migration_tail state_of oracle26_lock oracle26_redeem
    encode_head26 encode_snapshot26 build_genesis draft_genesis genesis_tx genesis_outputs
    sign_drafted sign_draft sign_p2pkh_inputs set_unlock signers_from p2pkh_placeholder fee_cap
    add_values finish category_le encode_tx encode_inputs encode_outputs encode_input encode_output
    output_script_bytes encode_token_prefix token_bits encode_varint txid_be push_data push_sized
    push_int abs_bytes put_sign p2pkh_locking_script p2sh32_locking_script oracle_lock oracle_redeem
    redeem_for sighash_preimage preimage_at encode_spent_output prevout_bytes prevouts sequences
    utxos signed_outputs schnorr_sign secret_scalar nonzero derive_pubkey rfc6979_nonce nonce_loop
    double_sha256 Snapshot.encode HeadCommit.encode check_table table_rows table_hash hash160 sha256
    table_entry find_row has_row sort_by_key insert_by_key decode_array try_array le_bytes bytes_eq
    schnorr_verify point_from_compressed accepts_point y_is_quadratic_residue challenge sign_with
    place_approvals place_all_approvals place_approval row_has_key Statement.verify_approval
    Statement.approval_sig_bytes Statement.approval_pubkey_bytes Statement.names_rotation
    approval_message
is_turned = refl

turned_small : turned.built.size < 2 ^ 63
unfolding plan change_table rotate find_head minting_at minting_from nft_in capability_eq best_head
    keep_newer newer outpoint txid_of HeadCommit.decode Snapshot.decode from_le_bytes category_bytes
    table_hash_bytes table_bytes electrum_scripthash set_table validate expected_locks validate_rows
    check_rows check_row check_others pubkey_bytes source_by_id sources eq_ignore_ascii_case
    build_rotate build_migration rotate_generic draft_rotate rotate_tx rotate_inputs rotate_outputs
    rotate_sources rotate_unlock approval_sigs migration_tail state_of oracle26_lock oracle26_redeem
    encode_head26 encode_snapshot26 build_genesis draft_genesis genesis_tx genesis_outputs
    sign_drafted sign_draft sign_p2pkh_inputs set_unlock signers_from p2pkh_placeholder fee_cap
    add_values finish category_le encode_tx encode_inputs encode_outputs encode_input encode_output
    output_script_bytes encode_token_prefix token_bits encode_varint txid_be push_data push_sized
    push_int abs_bytes put_sign p2pkh_locking_script p2sh32_locking_script oracle_lock oracle_redeem
    redeem_for sighash_preimage preimage_at encode_spent_output prevout_bytes prevouts sequences
    utxos signed_outputs schnorr_sign secret_scalar nonzero derive_pubkey rfc6979_nonce nonce_loop
    double_sha256 Snapshot.encode HeadCommit.encode check_table table_rows table_hash hash160 sha256
    table_entry find_row has_row sort_by_key insert_by_key decode_array try_array le_bytes bytes_eq
    schnorr_verify point_from_compressed accepts_point y_is_quadratic_residue challenge sign_with
    place_approvals place_all_approvals place_approval row_has_key Statement.verify_approval
    Statement.approval_sig_bytes Statement.approval_pubkey_bytes Statement.names_rotation
    approval_message
turned_small = omega arith

found_small : found.value < u64_mod
unfolding find_head minting_at minting_from nft_in capability_eq best_head keep_newer newer outpoint
    txid_of HeadCommit.decode Snapshot.decode HeadCommit.encode Snapshot.encode le_bytes
    from_le_bytes category_bytes electrum_scripthash plan change_table table_hash_bytes table_bytes
    set_table validate expected_locks validate_rows check_rows check_row check_others pubkey_bytes
    source_by_id sources eq_ignore_ascii_case oracle_lock oracle_redeem redeem_for push_data
    push_sized p2sh32_locking_script double_sha256 sha256 hash160 table_hash decode_array try_array
    bytes_eq
found_small = omega arith

rotate_written_example :
    (m' : Manifest) × (turned.manifest ≡ some m')
    × (validate toy artifacts m' ≡ ok tt)
    × (m'.table ≡ new_rows)
    × (HeadCommit.decode (take 17 found.raw ++ table_hash_bytes toy m')
        ≡ ok (record found.commit { table_hash = table_hash_bytes toy m' }))
    × ((value : ℕ) × (turned.built.tx.outputs
          ≡ record {
            value = value;
            locking_script = oracle_lock toy artifacts;
            token = some (record {
              category_le = reverse found.category;
              capability = 2;
              commitment = take 17 found.raw ++ table_hash_bytes toy m';
              amount = 0;
            });
          }
            ∷ []))
rotate_written_example =
    rotate_written toy artifacts toy-CurveLaws (λ b. refl) 1 server deployed new_rows planned
      approvals found turned deployed_valid is_planned is_found is_turned turned_small found_small
