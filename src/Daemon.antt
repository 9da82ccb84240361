-- ===== src/Daemon.antt =====
-- node/daemon/src: what a builder reads from the chain and when it posts. The answers of the server and
-- of the notaries, the clock and the operator's key are arguments.
pub mod Chain
pub mod Builder
pub mod Genesis
pub mod Rotate
use ticker_cash.Prelude.{ℕ, List, Result}
use ticker_cash.Bytes.{Bytes}
use ticker_cash.Text.{Text}
use ticker_cash.Keyfile.{KeyFileError}
use ticker_cash.Electrum.{ElectrumError, Utxo}
use ticker_cash.Tx.Build.Types.{BuildError}

-- The errors that `anyhow` carries.
pub data Failure : Type 0 where
  no_answer : ElectrumError → Failure
  bad_hex no_head table_rotated : Failure
  no_key : KeyFileError → Failure
  bad_txid : Text → Failure
  no_coin : ℕ → Failure
  not_built : BuildError → Failure

-- The answers of a Fulcrum server through `ElectrumClient`.
pub record Server : Type 0 where
  pub list_unspent : Text → Result ElectrumError (List Utxo)
  pub median_time_past : Result ElectrumError ℕ
  pub broadcast_raw : Bytes → Result ElectrumError Text
