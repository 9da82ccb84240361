-- ===== src/Electrum.antt =====
-- node/core/src/electrum/types.rs: what a Fulcrum server lists, and the errors of the client.
pub mod Client
pub mod Reach
pub mod Headers
use ticker_cash.Prelude.{ℕ, Option}
use ticker_cash.Bytes.{Bytes}
use ticker_cash.Text.{Text}
use ticker_cash.External.{External}
use ticker_cash.Statement.{decode_array}

pub data NftCapability : Type 0 where
  mutable minting none : NftCapability

pub record NftBody : Type 0 where
  pub capability : NftCapability
  pub commitment : Text

pub record TokenData : Type 0 where
  pub category : Text
  pub nft : Option NftBody

-- `height` is an i64 in the source; its order is not used.
pub record Utxo : Type 0 where
  pub tx_hash : Text
  pub tx_pos : ℕ
  pub value : ℕ
  pub height : ℕ
  pub token_data : Option TokenData

-- `Utxo::txid_be`
unfoldable pub txid_of : External → Utxo → Option Bytes
txid_of x u = decode_array x 32 u.tx_hash

-- The errors of the standard library, rustls and serde_json stand by their text.
pub data ElectrumError : Type 0 where
  dns tls invalid_server_name io json rpc : Text → ElectrumError
  tcp : (host : Text) (port : ℕ) (source : Text) → ElectrumError
  disconnected bad_shape : ElectrumError
  all_endpoints_down : (tried : ℕ) (last : Text) → ElectrumError
  response_too_large : ℕ → ElectrumError
