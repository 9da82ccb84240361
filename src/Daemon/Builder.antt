-- ===== src/Daemon/Builder.antt =====
-- node/daemon/src/builder.rs: the statements that are collected and the update that is posted.
pub mod Collect
pub mod Posted
pub mod Final
pub mod Complete
use ticker_cash.Prelude.{
  ℕ, ◌+◌, ◌*◌, ◌%◌, Bool, true, false, ◌&&◌, ◌||◌, not, Option, none, some, List, [], ◌∷◌, length,
  ◌==◌, leb, ltb, if◌then◌else◌, Result, ok, err, ◌>>=◌, ◌>>◌, ok_or, refuse_if,
}
use ticker_cash.Bytes.{Bytes, bytes_eq, u32_mod, u64_mod}
use ticker_cash.Text.{Text}
use ticker_cash.Constants.{quorum, max_recycle_per_update}
use ticker_cash.External.{External}
use ticker_cash.Commit.Clock.{current_minute}
use ticker_cash.Statement
use ticker_cash.Statement.{Statement}
use ticker_cash.Manifest.{TableRow, Manifest, pubkey_bytes, table_bytes, table_hash_bytes}
use ticker_cash.Keyfile.{KeyMaterial, KeyFileError}
use ticker_cash.Tx.Types.{TxOutpoint}
use ticker_cash.Tx.Covenant.{Artifacts}
use ticker_cash.Tx.Build.Types.{HeadUtxo, TickerUtxo, P2pkhInput, BuiltTx, BuildError}
use ticker_cash.Tx.Build.Sign.{Outcome}
use ticker_cash.Tx.Build.Update.{build_update}
use ticker_cash.Daemon.{Failure, no_head, table_rotated, no_key, no_coin, not_built, Server}
use ticker_cash.Daemon.Chain.{answered, find_head, find_recyclable_tickers, find_coins}

abbrev pub post_at_sec : ℕ
post_at_sec = 20

-- What the notary of a row answers: an error, no statement for the minute, or one.
pub data Answer : Type 0 where
  unreachable nothing : Answer
  signed : Statement → Answer

abbrev pub push_some : Option Statement → List Statement → List Statement
push_some none out = out
push_some (some st) out = st ∷ out

-- The top-up's coin: the first with a thousand satoshis more than is asked for.
unfoldable pub first_coin : ℕ → List (TxOutpoint × ℕ × ℕ) → Option (TxOutpoint × ℕ × ℕ)
first_coin sats [] = none
first_coin sats (c ∷ rest) =
    if leb ((sats + 1_000) % u64_mod) c.1 then some c else first_coin sats rest

module _ (x : External) where
  -- A statement that passes: for the minute, of the row's exchange and under the row's key.
  unfoldable pub accept : ℕ → TableRow → Answer → Option Statement
  accept minute row unreachable = none
  accept minute row nothing = none
  accept minute row (signed st) = elim (pubkey_bytes x row) [
    | none ↦ none
    | some pk ↦
        if not (st.ts == minute * 60 % u32_mod)
          || (not (st.source == row.source) || not (Statement.verify x st pk))
        then none
        else some st
  ]

  unfoldable pub collect : (TableRow → Answer) → ℕ → List TableRow → List Statement
  collect answer minute [] = []
  collect answer minute (row ∷ rest) =
      push_some (accept minute row (answer row)) (collect answer minute rest)

  -- The table of the head is the manifest's, its minute is over, and enough rows have signed.
  unfoldable pub ready :
      Manifest
      → (TableRow → Answer)
      → (now : ℕ) → HeadUtxo
      → Result Failure (Option (List Statement))
  ready m answer now head = do
    refuse_if (not (bytes_eq head.commit.table_hash (table_hash_bytes x m))) table_rotated
    let minute = current_minute now
    let statements = collect answer minute m.table
    ok (
        if leb (minute * 60 % u32_mod) head.commit.snapshot.ts
        then none
        else if ltb (length statements) quorum
        then none
        else if ltb (length statements) (length m.table) && ltb (now % 60) post_at_sec
        then none
        else some statements)

  abbrev pub keyed : Result KeyFileError KeyMaterial → Result Failure KeyMaterial
  keyed (ok key) = ok key
  keyed (err e) = err (no_key e)

  -- The top-ups, which cost no key and no coin where none is asked for.
  unfoldable pub find_topups :
      Server → Result KeyFileError KeyMaterial → Option ℕ → Result Failure (List P2pkhInput)
  find_topups server operator none = ok []
  find_topups server operator (some sats) = do
    key ← keyed operator
    coins ← find_coins x server key.pkh
    coin ← ok_or (first_coin sats coins) (no_coin sats)
    ok (
        record {
          outpoint = coin.0;
          value = coin.1;
          private_key = key.private_key;
          public_key = key.public_key;
          pkh = key.pkh;
        }
        ∷ [])

  module _ (a : Artifacts) (fuel : ℕ) where
    -- The broadcast of what was built. The commitment is then decoded again for the log only.
    unfoldable pub post : Server → Outcome BuiltTx → Option (Result Failure (BuiltTx × Text))
    post server none = none
    post server (some (err e)) = some (err (not_built e))
    post server (some (ok built)) =
        some (do txid ← answered (server.broadcast_raw built.raw); ok (built, txid))

    -- The Tickers and the top-ups, and the update.
    unfoldable pub post_update :
        Server
        → Manifest
        → Result KeyFileError KeyMaterial
        → Option ℕ
        → HeadUtxo
        → List Statement
        → Option (Result Failure (BuiltTx × Text))
    post_update server m operator topup_sats head statements =
        elim (answered server.median_time_past) [
          | err e ↦ some (err e)
          | ok mtp ↦ elim (find_recyclable_tickers x a server m mtp max_recycle_per_update) [
            | err e ↦ some (err e)
            | ok recycled ↦ elim (find_topups server operator topup_sats) [
              | err e ↦ some (err e)
              | ok topups ↦
                  post server
                    (build_update x a fuel head (table_bytes x m.table) statements recycled topups)
            ]
          ]
        ]

    -- `none` only where a signature is out of fuel; `ok none` where there is nothing to post.
    unfoldable pub build_once :
        Server
        → Manifest
        → (TableRow → Answer)
        → Result KeyFileError KeyMaterial
        → Option ℕ
        → (now : ℕ) → Option (Result Failure (Option (BuiltTx × Text)))
    build_once server m answer operator topup_sats now = elim (find_head x server m) [
      | err e ↦ some (err e)
      | ok none ↦ some (err no_head)
      | ok (some head) ↦ elim (ready m answer now head) [
        | err e ↦ some (err e)
        | ok none ↦ some (ok none)
        | ok (some statements) ↦ elim (post_update server m operator topup_sats head statements) [
          | none ↦ none
          | some (err e) ↦ some (err e)
          | some (ok posted) ↦ some (ok (some posted))
        ]
      ]
    ]
