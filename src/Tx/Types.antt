-- ===== src/Tx/Types.antt =====
-- node/core/src/tx/encode.rs: the data of a transaction. The version, an i32, is its bit pattern.
use ticker_cash.Prelude.{ℕ, Option, List}
use ticker_cash.Bytes.{Bytes}

pub record TxOutpoint : Type 0 where
  pub txid_be : Bytes
  pub vout : ℕ

pub record Input : Type 0 where
  pub prev : TxOutpoint
  pub unlock_script : Bytes
  pub sequence : ℕ

pub record TokenPrefix : Type 0 where
  pub category_le : Bytes
  pub capability : ℕ
  pub commitment : Bytes
  pub amount : ℕ

pub record Output : Type 0 where
  pub value : ℕ
  pub locking_script : Bytes
  pub token : Option TokenPrefix

pub record Tx : Type 0 where
  pub version : ℕ
  pub inputs : List Input
  pub outputs : List Output
  pub locktime : ℕ

abbrev pub no_capability : ℕ
no_capability = 0

abbrev pub mutable_capability : ℕ
mutable_capability = 1

abbrev pub minting_capability : ℕ
minting_capability = 2

abbrev pub sequence_final : ℕ
sequence_final = 0xffff_ffff

-- `Tx::new`
abbrev pub new_tx : List Input → List Output → Tx
new_tx inputs outputs = record { version = 2; inputs = inputs; outputs = outputs; locktime = 0 }
