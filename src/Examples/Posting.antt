-- ===== src/Examples/Posting.antt =====
-- A builder of node/daemon over seven notaries, a head, a due Ticker and no top-up.
use ticker_cash.Prelude.{
  ℕ, suc, ◌+◌, ◌<◌, ◌≡◌, refl, true, false, none, some, Option, List, [], ◌∷◌, ◌++◌, length,
  replicate, All, Any, min, count, Result, ok, err, arith,
}
use ticker_cash.Bytes.{Bytes, le_bytes, from_le_bytes, bytes_eq}
use ticker_cash.Text.{Text, codes, eq_ignore_ascii_case}
use ticker_cash.Constants.{max_recycle_per_update}
use ticker_cash.Commit.Types.{HeadCommit, Snapshot}
use ticker_cash.Commit.Snapshot
use ticker_cash.Commit.HeadCommit
use ticker_cash.Commit.Legacy.{decode_snapshot26}
use ticker_cash.Commit.Clock.{current_minute}
use ticker_cash.Crypto.Hash.{hash160, sha256, double_sha256}
use ticker_cash.Crypto.Schnorr.{
  sign_with, schnorr_sign, schnorr_verify, derive_pubkey, secret_scalar, nonzero, rfc6979_nonce,
  nonce_loop, y_is_quadratic_residue, challenge, point_from_compressed, accepts_point,
}
use ticker_cash.Statement
use ticker_cash.Statement.{Statement, message, decode_array, try_array}
use ticker_cash.Manifest.{
  TableRow, Manifest, pubkey_bytes, table_bytes, table_hash_bytes, category_bytes, check_others,
  check_row, check_rows, validate_rows,
}
use ticker_cash.Manifest.Rows.{validate_rows_iff}
use ticker_cash.Sources.{sources, source_by_id}
use ticker_cash.Keyfile.{KeyFileError, KeyMaterial, not_found}
use ticker_cash.Electrum.{NftCapability, Utxo, txid_of}
use ticker_cash.Tx.Types.{Tx}
use ticker_cash.Tx.Covenant.{
  oracle_lock, ticker_lock, table_hash, electrum_scripthash, oracle_redeem, redeem_for, table_rows,
  table_entry,
}
use ticker_cash.Tx.Build.Types.{HeadUtxo, TickerUtxo, BuiltTx, ticker_v27, finish, category_le}
use ticker_cash.Tx.Build.Sort.{Ordered, sort_by_key, insert_by_key}
use ticker_cash.Tx.Build.Select.{
  Placed, select_statements, find_row, has_row, check_table, row_signs, place_statements, first_ts,
}
use ticker_cash.Daemon.{Failure, Server}
use ticker_cash.Daemon.Chain.{
  find_head, minting_at, minting_from, nft_in, capability_eq, best_head, keep_newer, newer,
  outpoint, due_tickers, ticker_at, find_recyclable_tickers,
}
use ticker_cash.Daemon.Builder.{
  Answer, signed, ready, accept, collect, post, post_update, find_topups, build_once,
}
use ticker_cash.Daemon.Chain.Head.{Covered, OnRaw, raw_of, Listed, find_head_newest}
use ticker_cash.Daemon.Chain.Tickers.{is_due, recycle_time, IsDue, find_recyclable_tickers-count}
use ticker_cash.Daemon.Builder.Collect.{IsSignedBy}
use ticker_cash.Daemon.Builder.Posted.{IsReady, IsBuilt, build_once_posts}
use ticker_cash.Daemon.Builder.Final.{build_once_final}
use ticker_cash.Daemon.Builder.Complete.{select_statements-collect}
use ticker_cash.Tx.Encode.{
  encode_tx, encode_inputs, encode_outputs, encode_input, encode_output, output_script_bytes,
  encode_token_prefix, token_bits, encode_varint, txid_be,
}
use ticker_cash.Tx.Script.{
  push_data, push_sized, push_int, abs_bytes, put_sign, p2pkh_locking_script, p2sh32_locking_script,
}
use ticker_cash.Tx.Sighash.{
  sighash_preimage, preimage_at, encode_spent_output, prevout_bytes, prevouts, sequences, utxos,
  signed_outputs,
}
use ticker_cash.Tx.Build.Median.{lower_median}
use ticker_cash.Tx.Build.Sign.{
  sign_drafted, sign_draft, sign_p2pkh_inputs, set_unlock, signers_from, p2pkh_placeholder, fee_cap,
  add_values,
}
use ticker_cash.Tx.Build.Update.{
  build_update, draft_update, update_tx, update_inputs, update_outputs, update_sources,
  update_unlock, update_snapshot, update_locktime, latest, placed_sigs, price_bytes,
}
use ticker_cash.Examples.Toy.{toy, toy-CurveLaws, one}
use ticker_cash.Examples.Building.{artifacts, no_build}

-- Row `i`: the same point with other bytes before its last.
abbrev pub key : ℕ → Bytes
key i = 2 ∷ i ∷ (replicate 30 0 ++ (1 ∷ []))

abbrev row : ℕ → TableRow
row i = record { row = i; source = suc i; pubkey = key i; operator = []; api = [] }

abbrev pub rows : List TableRow
rows = row 0 ∷ row 1 ∷ row 2 ∷ row 3 ∷ row 4 ∷ row 5 ∷ row 6 ∷ []

abbrev minute_ts : ℕ
minute_ts = 1_792_200_060

abbrev answer : TableRow → Answer
answer r = signed (record {
  source = r.source;
  ts = minute_ts;
  price = 29_000;
  sig = sign_with toy one r.pubkey (sha256 toy (message r.source minute_ts 29_000)) one;
})

abbrev pub manifest : Manifest
manifest = record {
  version = 27;
  network = codes "chipnet";
  category = replicate 32 0x11;
  genesis_txid = replicate 32 0x22;
  oracle_lock = oracle_lock toy artifacts;
  ticker_lock = ticker_lock artifacts;
  table_hash = table_hash toy (table_bytes toy rows);
  table = rows;
  electrum = [];
}

abbrev head_commit : HeadCommit
head_commit = record {
  snapshot = record { ts = 1_792_200_000; seq = 1000; price = 28_800; k = 7 };
  table_hash = table_hash toy (table_bytes toy rows);
}

abbrev old_snapshot : Snapshot
old_snapshot = record { ts = 1_792_000_000; seq = 10; price = 28_000; k = 7 }

abbrev nft : NftCapability → Bytes → Utxo
nft capability commitment = record {
  tx_hash = replicate 32 1;
  tx_pos = 0;
  value = 50_000_000;
  height = 0;
  token_data = some (record {
    category = replicate 32 0x11;
    nft = some (record { capability = capability; commitment = commitment });
  });
}

-- Every script hash lists the same three outputs.
abbrev listed : List Utxo
listed =
    nft NftCapability.minting (HeadCommit.encode head_commit)
    ∷ nft NftCapability.none (Snapshot.encode old_snapshot)
    ∷ record { tx_hash = replicate 32 2; tx_pos = 1; value = 9_000; height = 5; token_data = none }
    ∷ []

abbrev pub server : Server
server = record {
  list_unspent = λ scripthash. ok listed;
  median_time_past = ok 1_792_199_500;
  broadcast_raw = λ raw. ok (codes "sent");
}

abbrev no_key_file : Result KeyFileError KeyMaterial
no_key_file = err not_found

abbrev posted_or : Option (Result Failure (Option (BuiltTx × Text))) → BuiltTx
posted_or (some (ok (some p))) = p.0
posted_or (some (ok none)) = no_build
posted_or (some (err e)) = no_build
posted_or none = no_build

abbrev posted : BuiltTx
posted =
    posted_or (build_once toy artifacts 1 server manifest answer no_key_file none 1_792_200_085)

is_posted :
    build_once toy artifacts 1 server manifest answer no_key_file none 1_792_200_085
    ≡ some (ok (some (posted, codes "sent")))
unfolding build_once find_head minting_at minting_from nft_in capability_eq best_head keep_newer
    newer outpoint txid_of HeadCommit.decode Snapshot.decode from_le_bytes category_bytes ready
    table_hash_bytes current_minute collect accept pubkey_bytes post_update post
    find_recyclable_tickers due_tickers ticker_at ticker_v27 decode_snapshot26
    Snapshot.recyclable_at find_topups table_bytes electrum_scripthash build_update draft_update
    update_tx update_inputs update_outputs update_sources update_unlock update_snapshot
    update_locktime latest placed_sigs price_bytes lower_median sign_drafted sign_draft
    sign_p2pkh_inputs set_unlock signers_from p2pkh_placeholder fee_cap add_values finish
    category_le encode_tx encode_inputs encode_outputs encode_input encode_output
    output_script_bytes encode_token_prefix token_bits encode_varint txid_be push_data push_sized
    push_int abs_bytes put_sign p2pkh_locking_script p2sh32_locking_script oracle_lock oracle_redeem
    redeem_for sighash_preimage preimage_at encode_spent_output prevout_bytes prevouts sequences
    utxos signed_outputs schnorr_sign secret_scalar nonzero derive_pubkey rfc6979_nonce nonce_loop
    double_sha256 Snapshot.encode HeadCommit.encode select_statements check_table table_rows
    table_hash hash160 sha256 table_entry place_statements row_signs find_row has_row first_ts
    sort_by_key insert_by_key Statement.verify Statement.sig_bytes decode_array try_array message
    le_bytes bytes_eq schnorr_verify point_from_compressed accepts_point y_is_quadratic_residue
    challenge sign_with
is_posted = refl

build_once_posts_example :
    (head : HeadUtxo) × (statements : List Statement) × (find_head toy server manifest
      ≡ ok (some head))
    × (statements ≡ collect toy answer (current_minute 1_792_200_085) rows)
    × All
        (λ st.
          Any
            (λ row. (answer row ≡ signed st) × IsSignedBy toy (current_minute 1_792_200_085) st row)
            rows)
        statements
    × IsReady toy manifest 1_792_200_085 head statements
    × IsBuilt toy artifacts 1 server manifest no_key_file none head statements posted
    × (server.broadcast_raw posted.raw ≡ ok (codes "sent"))
build_once_posts_example =
    build_once_posts toy artifacts 1 server manifest answer no_key_file none 1_792_200_085 posted
      (codes "sent") is_posted

minute_now : current_minute 1_792_200_085 ≡ 29_870_001
unfolding current_minute
minute_now = refl

build_once_final_example : Tx.locktime posted.tx < 1_792_199_500
build_once_final_example =
    build_once_final toy artifacts toy-CurveLaws 1 server manifest answer no_key_file none
      1_792_200_085 1_792_199_500 posted (codes "sent") is_posted refl (omega arith) (omega arith)
      (omega (arith, minute_now))

abbrev head : HeadUtxo
head = record {
  outpoint = record { txid_be = replicate 32 1; vout = 0 };
  value = 50_000_000;
  commit = head_commit;
  raw = HeadCommit.encode head_commit;
  category = replicate 32 0x11;
}

head_found : find_head toy server manifest ≡ ok (some head)
unfolding find_head minting_at minting_from nft_in capability_eq best_head keep_newer newer outpoint
    txid_of HeadCommit.decode Snapshot.decode HeadCommit.encode Snapshot.encode from_le_bytes
    le_bytes bytes_eq category_bytes decode_array try_array table_hash hash160 table_bytes
    pubkey_bytes
head_found = refl

find_head_newest_example :
    Listed toy manifest listed (some head)
    × All
        (λ u.
          OnRaw toy
            (λ u raw. Covered toy (some head) (HeadCommit.decode raw))
            u
            (raw_of toy manifest.category u))
        listed
find_head_newest_example =
    find_head_newest toy server manifest (oracle_lock toy artifacts) listed (some head) refl refl
      head_found

abbrev due_ticker : TickerUtxo
due_ticker = record {
  outpoint = record { txid_be = replicate 32 1; vout = 0 };
  value = 50_000_000;
  lock = ticker_lock artifacts;
  commitment = Snapshot.encode old_snapshot;
  recyclable_at = 1_792_086_400;
}

ticker_found :
    find_recyclable_tickers toy artifacts server manifest 1_792_199_500 max_recycle_per_update
    ≡ ok (due_ticker ∷ [])
unfolding find_recyclable_tickers due_tickers ticker_at ticker_v27 nft_in capability_eq outpoint
    txid_of Snapshot.decode Snapshot.encode decode_snapshot26 Snapshot.recyclable_at from_le_bytes
    le_bytes bytes_eq decode_array try_array sort_by_key insert_by_key
ticker_found = refl

find_recyclable_tickers-count_example :
    All (IsDue toy artifacts 1_792_199_500) (due_ticker ∷ [])
    × Ordered (λ t. TickerUtxo.recyclable_at t) (due_ticker ∷ [])
    × (length (due_ticker ∷ [])
        ≡ min max_recycle_per_update (
            count
              (λ u. is_due 1_792_199_500 (recycle_time toy artifacts manifest.category false u))
              listed
            + count
                (λ u. is_due 1_792_199_500 (recycle_time toy artifacts manifest.category true u))
                listed))
find_recyclable_tickers-count_example =
    find_recyclable_tickers-count toy artifacts server manifest 1_792_199_500 max_recycle_per_update
      listed listed (due_ticker ∷ []) refl refl ticker_found

rows_accepted : validate_rows toy rows ≡ ok tt
unfolding validate_rows check_rows check_row check_others pubkey_bytes decode_array try_array
    source_by_id sources eq_ignore_ascii_case
rows_accepted = refl

seven_collected : length (collect toy answer 29_870_001 rows) ≡ 7
unfolding collect accept pubkey_bytes decode_array try_array Statement.verify Statement.sig_bytes
    message le_bytes sha256 schnorr_verify point_from_compressed accepts_point
    y_is_quadratic_residue challenge sign_with bytes_eq
seven_collected = refl

select_statements-collect_example :
    (placed : List (Placed Statement)) × (select_statements toy head
        (table_bytes toy rows)
        (collect toy answer 29_870_001 rows)
      ≡ ok placed)
select_statements-collect_example =
    select_statements-collect toy rows ((validate_rows_iff toy rows).0 rows_accepted) answer
      29_870_001 head refl (omega arith) (omega (arith, seven_collected))
