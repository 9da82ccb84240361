-- ===== src/Examples/Rotating.antt =====
-- The rotation, the migration and the genesis of node/core/src/tx/build.rs, run with the stand-ins.
use ticker_cash.Prelude.{
  map, none, reverse, ℕ, ◌+◌, ◌*◌, ◌^◌, ◌≤◌, ◌<◌, ◌≡◌, refl, some, List, [], ◌∷◌, ◌++◌, length,
  replicate, take, ok, All, arith,
}
use ticker_cash.Bytes.{Bytes, bytes_eq, le_bytes}
use ticker_cash.Crypto.Hash.{sha256, hash160, double_sha256}
use ticker_cash.Crypto.Schnorr.{
  schnorr_sign, schnorr_verify, derive_pubkey, secret_scalar, nonzero, rfc6979_nonce, nonce_loop,
  sign_with, y_is_quadratic_residue, challenge, point_from_compressed, accepts_point,
}
use ticker_cash.Statement
use ticker_cash.Statement.{Statement, Approval, message, approval_message, decode_array, try_array}
use ticker_cash.Commit.Types.{HeadCommit}
use ticker_cash.Commit.Snapshot
use ticker_cash.Commit.HeadCommit
use ticker_cash.Tx.Covenant.{
  oracle_lock, oracle_redeem, redeem_for, table_hash, table_rows, table_entry,
}
use ticker_cash.Tx.Build.Types.{HeadUtxo, LegacyHeadUtxo, P2pkhInput, BuiltTx, finish, category_le}
use ticker_cash.Tx.Build.Sign.Values.{sum_values}
use ticker_cash.Tx.Build.Sort.{sort_by_key, insert_by_key}
use ticker_cash.Tx.Build.Select.{
  Placed, find_row, has_row, check_table, row_has_key, place_approval, place_all_approvals,
  place_approvals,
}
use ticker_cash.Examples.Signing.{ok_of}
use ticker_cash.Tx.Encode.{
  encode_tx, encode_inputs, encode_outputs, encode_input, encode_output, output_script_bytes,
  encode_token_prefix, token_bits, encode_varint, txid_be,
}
use ticker_cash.Tx.Script.{
  push_data, push_sized, push_int, abs_bytes, put_sign, p2pkh_locking_script, p2sh32_locking_script,
}
use ticker_cash.Tx.Sighash.{
  sighash_preimage, preimage_at, encode_spent_output, prevout_bytes, prevouts, sequences, utxos,
  signed_outputs,
}
use ticker_cash.Tx.Build.Sign.{
  sign_drafted, sign_draft, sign_p2pkh_inputs, set_unlock, signers_from, p2pkh_placeholder, fee_cap,
  add_values,
}
use ticker_cash.Examples.Toy.{toy, toy-CurveLaws, secret, public, one}
use ticker_cash.Commit.Legacy.{HeadCommit26, encode_head26, encode_snapshot26}
use ticker_cash.Examples.Toy.{two, Three}
use ticker_cash.Examples.Building.{artifacts, topup, no_build}
use ticker_cash.Tx.Size.{SameLayout}
use ticker_cash.Tx.Covenant.{oracle26_lock, oracle26_redeem}
use ticker_cash.Tx.Build.Sort.{Ascending}
use ticker_cash.Tx.Build.Select.{row_of}
use ticker_cash.Tx.Build.Select.Approvals.{IsApproved, place_approvals_sound}
use ticker_cash.Tx.Build.Rotate.{
  build_rotate, build_migration, rotate_generic, draft_rotate, rotate_tx, rotate_inputs,
  rotate_outputs, rotate_sources, rotate_unlock, approval_sigs, migration_tail, state_of,
}
use ticker_cash.Tx.Build.Rotate.Built.{
  IsMajority, IsRotation, build_rotate-IsRotation, build_migration-IsRotation,
}
use ticker_cash.Tx.Build.Genesis.{build_genesis, draft_genesis, genesis_tx, genesis_outputs}
use ticker_cash.Tx.Build.Genesis.Built.{build_genesis-pays}

-- Three rows; two of the keys approve.
abbrev other_secret : Bytes
other_secret = replicate 31 0 ++ (2 ∷ [])

abbrev other_public : Bytes
other_public = 2 ∷ (replicate 31 0 ++ (2 ∷ []))

abbrev table : Bytes
table = public ++ (9 ∷ (other_public ++ (8 ∷ (replicate 33 3 ++ (7 ∷ [])))))

abbrev category : Bytes
category = replicate 32 2

abbrev next_lock : Bytes
next_lock = 0x76 ∷ 0xa9 ∷ []

abbrev approve : Three → Bytes → (next_lock tail : Bytes) → Approval
approve key pubkey next_lock tail = record {
  pubkey = pubkey;
  old_table_hash = table_hash toy table;
  next_lock = next_lock;
  tail = tail;
  sig =
      sign_with toy key pubkey
        (sha256 toy (approval_message (category_le category) (table_hash toy table) next_lock tail))
        one;
}

abbrev approvals_for : (next_lock tail : Bytes) → List Approval
approvals_for next_lock tail =
    approve two other_public next_lock tail ∷ approve one public next_lock tail ∷ []

abbrev approvals : List Approval
approvals = approvals_for next_lock []

abbrev placed : List (Placed Bytes)
placed =
    (
      0,
      sign_with toy one public
          (sha256 toy (approval_message (category_le category) (table_hash toy table) next_lock []))
          one,
    )
    ∷ (
      1,
      sign_with toy two other_public
          (sha256 toy (approval_message (category_le category) (table_hash toy table) next_lock []))
          one,
    )
    ∷ []

approved :
    place_approvals toy table (table_hash toy table) (category_le category) next_lock [] approvals
    ≡ ok placed
unfolding place_approvals check_table table_rows table_hash hash160 sha256 table_entry
    place_all_approvals place_approval row_has_key find_row has_row sort_by_key insert_by_key
    Statement.verify_approval Statement.approval_sig_bytes Statement.approval_pubkey_bytes
    Statement.names_rotation decode_array try_array approval_message bytes_eq schnorr_verify
    point_from_compressed accepts_point y_is_quadratic_residue challenge sign_with category_le
approved = refl

place_approvals_sound_example :
    (table_hash toy table ≡ table_hash toy table)
    × Ascending row_of placed
    × All (IsApproved toy table (table_hash toy table) (category_le category) next_lock []) placed
    × (length placed ≡ length approvals)
    × (table_rows table < length placed * 2)
place_approvals_sound_example =
    place_approvals_sound toy table (table_hash toy table) (category_le category) next_lock []
      approvals placed approved

abbrev head_commit : HeadCommit
head_commit = record {
  snapshot = record { ts = 1_792_200_000; seq = 1000; price = 28_800; k = 7 };
  table_hash = table_hash toy table;
}

abbrev head : HeadUtxo
head = record {
  outpoint = record { txid_be = replicate 32 1; vout = 0 };
  value = 50_000_000;
  commit = head_commit;
  raw = HeadCommit.encode head_commit;
  category = category;
}

abbrev rotated : BuiltTx
rotated =
    ok_of (build_rotate toy artifacts 1 head table next_lock [] approvals (topup ∷ [])) no_build

rotated_built :
    build_rotate toy artifacts 1 head table next_lock [] approvals (topup ∷ []) ≡ some (ok rotated)
unfolding build_rotate build_migration rotate_generic draft_rotate rotate_tx rotate_inputs
    rotate_outputs rotate_sources rotate_unlock approval_sigs migration_tail state_of oracle26_lock
    oracle26_redeem encode_head26 encode_snapshot26 build_genesis draft_genesis genesis_tx
    genesis_outputs sign_drafted sign_draft sign_p2pkh_inputs set_unlock signers_from
    p2pkh_placeholder fee_cap add_values finish category_le encode_tx encode_inputs encode_outputs
    encode_input encode_output output_script_bytes encode_token_prefix token_bits encode_varint
    txid_be push_data push_sized push_int abs_bytes put_sign p2pkh_locking_script
    p2sh32_locking_script oracle_lock oracle_redeem redeem_for sighash_preimage preimage_at
    encode_spent_output prevout_bytes prevouts sequences utxos signed_outputs schnorr_sign
    secret_scalar nonzero derive_pubkey rfc6979_nonce nonce_loop double_sha256 Snapshot.encode
    HeadCommit.encode check_table table_rows table_hash hash160 sha256 table_entry find_row has_row
    sort_by_key insert_by_key decode_array try_array le_bytes bytes_eq schnorr_verify
    point_from_compressed accepts_point y_is_quadratic_residue challenge sign_with place_approvals
    place_all_approvals place_approval row_has_key Statement.verify_approval
    Statement.approval_sig_bytes Statement.approval_pubkey_bytes Statement.names_rotation
    approval_message
rotated_built = refl

rotated_small : rotated.size < 2 ^ 63
unfolding build_rotate build_migration rotate_generic draft_rotate rotate_tx rotate_inputs
    rotate_outputs rotate_sources rotate_unlock approval_sigs migration_tail state_of oracle26_lock
    oracle26_redeem encode_head26 encode_snapshot26 build_genesis draft_genesis genesis_tx
    genesis_outputs sign_drafted sign_draft sign_p2pkh_inputs set_unlock signers_from
    p2pkh_placeholder fee_cap add_values finish category_le encode_tx encode_inputs encode_outputs
    encode_input encode_output output_script_bytes encode_token_prefix token_bits encode_varint
    txid_be push_data push_sized push_int abs_bytes put_sign p2pkh_locking_script
    p2sh32_locking_script oracle_lock oracle_redeem redeem_for sighash_preimage preimage_at
    encode_spent_output prevout_bytes prevouts sequences utxos signed_outputs schnorr_sign
    secret_scalar nonzero derive_pubkey rfc6979_nonce nonce_loop double_sha256 Snapshot.encode
    HeadCommit.encode check_table table_rows table_hash hash160 sha256 table_entry find_row has_row
    sort_by_key insert_by_key decode_array try_array le_bytes bytes_eq schnorr_verify
    point_from_compressed accepts_point y_is_quadratic_residue challenge sign_with place_approvals
    place_all_approvals place_approval row_has_key Statement.verify_approval
    Statement.approval_sig_bytes Statement.approval_pubkey_bytes Statement.names_rotation
    approval_message
rotated_small = omega arith

build_rotate-IsRotation_example :
    (placed : List (Placed Bytes)) × (value : ℕ) × IsMajority toy artifacts toy-CurveLaws table
      head.commit.table_hash
      (reverse head.category)
      next_lock
      []
      placed
    × IsRotation
        (record {
          outpoint = head.outpoint;
          value = head.value;
          raw_commit = head.raw;
          state = take 17 head.raw;
          category = head.category;
          lock_in = oracle_lock toy artifacts;
          redeem = oracle_redeem artifacts;
        })
        table
        next_lock
        []
        placed
        (topup ∷ [])
        rotated
        value
build_rotate-IsRotation_example =
    build_rotate-IsRotation toy artifacts toy-CurveLaws 1 head table next_lock [] approvals
      (topup ∷ []) rotated rotated_built rotated_small (omega arith)

abbrev legacy_commit : HeadCommit26
legacy_commit = record {
  snapshot = record { seq = 29_870_000; price = 27_257_000_000; k = 13 };
  table_hash = table_hash toy table;
}

abbrev legacy : LegacyHeadUtxo
legacy = record {
  outpoint = record { txid_be = replicate 32 1; vout = 0 };
  value = 50_000_000;
  commit = legacy_commit;
  raw = encode_head26 legacy_commit;
  category = category;
}

abbrev migration_approvals : List Approval
migration_approvals =
    approvals_for (oracle_lock toy artifacts) (migration_tail (table_hash toy table))

abbrev migrated : BuiltTx
migrated = ok_of (build_migration toy artifacts 1 legacy table migration_approvals []) no_build

migrated_built :
    build_migration toy artifacts 1 legacy table migration_approvals [] ≡ some (ok migrated)
unfolding build_rotate build_migration rotate_generic draft_rotate rotate_tx rotate_inputs
    rotate_outputs rotate_sources rotate_unlock approval_sigs migration_tail state_of oracle26_lock
    oracle26_redeem encode_head26 encode_snapshot26 build_genesis draft_genesis genesis_tx
    genesis_outputs sign_drafted sign_draft sign_p2pkh_inputs set_unlock signers_from
    p2pkh_placeholder fee_cap add_values finish category_le encode_tx encode_inputs encode_outputs
    encode_input encode_output output_script_bytes encode_token_prefix token_bits encode_varint
    txid_be push_data push_sized push_int abs_bytes put_sign p2pkh_locking_script
    p2sh32_locking_script oracle_lock oracle_redeem redeem_for sighash_preimage preimage_at
    encode_spent_output prevout_bytes prevouts sequences utxos signed_outputs schnorr_sign
    secret_scalar nonzero derive_pubkey rfc6979_nonce nonce_loop double_sha256 Snapshot.encode
    HeadCommit.encode check_table table_rows table_hash hash160 sha256 table_entry find_row has_row
    sort_by_key insert_by_key decode_array try_array le_bytes bytes_eq schnorr_verify
    point_from_compressed accepts_point y_is_quadratic_residue challenge sign_with place_approvals
    place_all_approvals place_approval row_has_key Statement.verify_approval
    Statement.approval_sig_bytes Statement.approval_pubkey_bytes Statement.names_rotation
    approval_message
migrated_built = refl

migrated_small : migrated.size < 2 ^ 63
unfolding build_rotate build_migration rotate_generic draft_rotate rotate_tx rotate_inputs
    rotate_outputs rotate_sources rotate_unlock approval_sigs migration_tail state_of oracle26_lock
    oracle26_redeem encode_head26 encode_snapshot26 build_genesis draft_genesis genesis_tx
    genesis_outputs sign_drafted sign_draft sign_p2pkh_inputs set_unlock signers_from
    p2pkh_placeholder fee_cap add_values finish category_le encode_tx encode_inputs encode_outputs
    encode_input encode_output output_script_bytes encode_token_prefix token_bits encode_varint
    txid_be push_data push_sized push_int abs_bytes put_sign p2pkh_locking_script
    p2sh32_locking_script oracle_lock oracle_redeem redeem_for sighash_preimage preimage_at
    encode_spent_output prevout_bytes prevouts sequences utxos signed_outputs schnorr_sign
    secret_scalar nonzero derive_pubkey rfc6979_nonce nonce_loop double_sha256 Snapshot.encode
    HeadCommit.encode check_table table_rows table_hash hash160 sha256 table_entry find_row has_row
    sort_by_key insert_by_key decode_array try_array le_bytes bytes_eq schnorr_verify
    point_from_compressed accepts_point y_is_quadratic_residue challenge sign_with place_approvals
    place_all_approvals place_approval row_has_key Statement.verify_approval
    Statement.approval_sig_bytes Statement.approval_pubkey_bytes Statement.names_rotation
    approval_message
migrated_small = omega arith

build_migration-IsRotation_example :
    (placed : List (Placed Bytes)) × (value : ℕ) × IsMajority toy artifacts toy-CurveLaws table
      legacy.commit.table_hash
      (reverse legacy.category)
      (oracle_lock toy artifacts)
      (replicate 4 0 ++ legacy.commit.table_hash)
      placed
    × IsRotation
        (record {
          outpoint = legacy.outpoint;
          value = legacy.value;
          raw_commit = legacy.raw;
          state = take 13 legacy.raw;
          category = legacy.category;
          lock_in = oracle26_lock toy artifacts;
          redeem = oracle26_redeem artifacts;
        })
        table
        (oracle_lock toy artifacts)
        (replicate 4 0 ++ legacy.commit.table_hash)
        placed
        []
        migrated
        value
build_migration-IsRotation_example =
    build_migration-IsRotation toy artifacts toy-CurveLaws 1 legacy table migration_approvals []
      migrated migrated_built migrated_small (omega arith)

abbrev funding : P2pkhInput
funding = record {
  outpoint = record { txid_be = replicate 32 6; vout = 0 };
  value = 100_000_000;
  private_key = secret;
  public_key = public;
  pkh = replicate 20 4;
}

abbrev opened : BuiltTx
opened =
    ok_of (build_genesis toy artifacts 1 funding (table_hash toy table) 50_000_000 1_792_200_000)
      no_build

opened_built :
    build_genesis toy artifacts 1 funding (table_hash toy table) 50_000_000 1_792_200_000
    ≡ some (ok opened)
unfolding build_rotate build_migration rotate_generic draft_rotate rotate_tx rotate_inputs
    rotate_outputs rotate_sources rotate_unlock approval_sigs migration_tail state_of oracle26_lock
    oracle26_redeem encode_head26 encode_snapshot26 build_genesis draft_genesis genesis_tx
    genesis_outputs sign_drafted sign_draft sign_p2pkh_inputs set_unlock signers_from
    p2pkh_placeholder fee_cap add_values finish category_le encode_tx encode_inputs encode_outputs
    encode_input encode_output output_script_bytes encode_token_prefix token_bits encode_varint
    txid_be push_data push_sized push_int abs_bytes put_sign p2pkh_locking_script
    p2sh32_locking_script oracle_lock oracle_redeem redeem_for sighash_preimage preimage_at
    encode_spent_output prevout_bytes prevouts sequences utxos signed_outputs schnorr_sign
    secret_scalar nonzero derive_pubkey rfc6979_nonce nonce_loop double_sha256 Snapshot.encode
    HeadCommit.encode check_table table_rows table_hash hash160 sha256 table_entry find_row has_row
    sort_by_key insert_by_key decode_array try_array le_bytes bytes_eq schnorr_verify
    point_from_compressed accepts_point y_is_quadratic_residue challenge sign_with place_approvals
    place_all_approvals place_approval row_has_key Statement.verify_approval
    Statement.approval_sig_bytes Statement.approval_pubkey_bytes Statement.names_rotation
    approval_message
opened_built = refl

opened_small : opened.size < 2 ^ 62
unfolding build_rotate build_migration rotate_generic draft_rotate rotate_tx rotate_inputs
    rotate_outputs rotate_sources rotate_unlock approval_sigs migration_tail state_of oracle26_lock
    oracle26_redeem encode_head26 encode_snapshot26 build_genesis draft_genesis genesis_tx
    genesis_outputs sign_drafted sign_draft sign_p2pkh_inputs set_unlock signers_from
    p2pkh_placeholder fee_cap add_values finish category_le encode_tx encode_inputs encode_outputs
    encode_input encode_output output_script_bytes encode_token_prefix token_bits encode_varint
    txid_be push_data push_sized push_int abs_bytes put_sign p2pkh_locking_script
    p2sh32_locking_script oracle_lock oracle_redeem redeem_for sighash_preimage preimage_at
    encode_spent_output prevout_bytes prevouts sequences utxos signed_outputs schnorr_sign
    secret_scalar nonzero derive_pubkey rfc6979_nonce nonce_loop double_sha256 Snapshot.encode
    HeadCommit.encode check_table table_rows table_hash hash160 sha256 table_entry find_row has_row
    sort_by_key insert_by_key decode_array try_array le_bytes bytes_eq schnorr_verify
    point_from_compressed accepts_point y_is_quadratic_residue challenge sign_with place_approvals
    place_all_approvals place_approval row_has_key Statement.verify_approval
    Statement.approval_sig_bytes Statement.approval_pubkey_bytes Statement.names_rotation
    approval_message
opened_small = omega arith

build_genesis-pays_example :
    (change : ℕ) × (opened.tx.outputs
      ≡ record {
        value = 50_000_000;
        locking_script = oracle_lock toy artifacts;
        token = some (record {
          category_le = reverse funding.outpoint.txid_be;
          capability = 2;
          commitment = le_bytes 4 1_792_200_000 ++ (replicate 13 0 ++ table_hash toy table);
          amount = 0;
        });
      }
        ∷ record { value = change; locking_script = p2pkh_locking_script funding.pkh; token = none }
        ∷ [])
    × SameLayout
        (record {
          prev = funding.outpoint;
          unlock_script = push_data (replicate 65 0) ++ push_data funding.public_key;
          sequence = 0xffff_fffe;
        }
          ∷ [])
        opened.tx.inputs
    × (funding.outpoint.vout ≡ 0)
    × (opened.raw ≡ encode_tx opened.tx)
    × (opened.size ≡ length opened.raw)
    × (opened.fee ≡ opened.size + 1)
    × (sum_values (map (λ o. o.value) opened.tx.outputs) + opened.fee ≡ funding.value)
    × (546 ≤ change)
build_genesis-pays_example =
    build_genesis-pays toy artifacts funding (table_hash toy table) 50_000_000 1_792_200_000
      toy-CurveLaws 1 opened opened_built opened_small (omega arith) (omega arith)
