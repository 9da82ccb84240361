-- ===== src/Tx/Build/Types.antt =====
-- node/core/src/tx/build.rs: the coins, the errors and the result of a build.
use ticker_cash.Prelude.{ℕ, reverse, length}
use ticker_cash.Bytes.{Bytes}
use ticker_cash.Text.{Text}
use ticker_cash.External.{External}
use ticker_cash.Crypto.Schnorr.{KeyError}
use ticker_cash.Commit.Types.{Snapshot, HeadCommit}
use ticker_cash.Commit.Snapshot
use ticker_cash.Commit.Legacy.{Snapshot26, HeadCommit26, encode_snapshot26, recyclable26_at}
use ticker_cash.Tx.Types.{TxOutpoint, Tx}
use ticker_cash.Tx.Covenant.{Artifacts, ticker_lock, ticker26_lock}
use ticker_cash.Tx.Encode.{encode_tx, txid_be}

abbrev pub p2pkh_dust : ℕ
p2pkh_dust = 546

pub data BuildError : Type 0 where
  too_few_statements : ℕ → BuildError
  mixed_timestamp : ℕ → ℕ → BuildError
  stale_timestamp : (new old : ℕ) → BuildError
  no_row : ℕ → BuildError
  duplicate_row : ℕ → BuildError
  wrong_table_hash : BuildError
  wrong_table_rows : ℕ → BuildError
  above_fee_cap : (fee cap : ℕ) → BuildError
  insufficient : ℕ → BuildError
  not_majority : (have rows : ℕ) → BuildError
  bad_approval : Text → BuildError
  bad_key : KeyError → BuildError
  bad_genesis_vout : BuildError

pub record HeadUtxo : Type 0 where
  pub outpoint : TxOutpoint
  pub value : ℕ
  pub commit : HeadCommit
  pub raw : Bytes
  pub category : Bytes

pub record LegacyHeadUtxo : Type 0 where
  pub outpoint : TxOutpoint
  pub value : ℕ
  pub commit : HeadCommit26
  pub raw : Bytes
  pub category : Bytes

pub record TickerUtxo : Type 0 where
  pub outpoint : TxOutpoint
  pub value : ℕ
  pub lock : Bytes
  pub commitment : Bytes
  pub recyclable_at : ℕ

-- `TickerUtxo::v27` and `TickerUtxo::v26`.
unfoldable pub ticker_v27 : Artifacts → TxOutpoint → ℕ → Snapshot → Bytes → TickerUtxo
ticker_v27 a outpoint value snapshot raw_commitment = record {
  outpoint = outpoint;
  value = value;
  lock = ticker_lock a;
  commitment = raw_commitment;
  recyclable_at = Snapshot.recyclable_at snapshot;
}

unfoldable pub ticker_v26 : Artifacts → TxOutpoint → ℕ → Snapshot26 → TickerUtxo
ticker_v26 a outpoint value snapshot = record {
  outpoint = outpoint;
  value = value;
  lock = ticker26_lock a;
  commitment = encode_snapshot26 snapshot;
  recyclable_at = recyclable26_at snapshot;
}

pub record P2pkhInput : Type 0 where
  pub outpoint : TxOutpoint
  pub value : ℕ
  pub private_key : Bytes
  pub public_key : Bytes
  pub pkh : Bytes

pub record BuiltTx : Type 0 where
  pub tx : Tx
  pub raw : Bytes
  pub txid : Bytes
  pub size : ℕ
  pub fee : ℕ

unfoldable pub finish : External → Tx → ℕ → BuiltTx
finish x tx fee =
    let raw = encode_tx tx in
    record { tx = tx; raw = raw; txid = txid_be x raw; size = length raw; fee = fee }

unfoldable pub category_le : Bytes → Bytes
category_le category_display = reverse category_display
