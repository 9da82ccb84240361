-- ===== src/Daemon/Genesis.antt =====
-- node/daemon/src/genesis.rs: the manifest and the coin of a deployment, and the transaction that opens it.
pub mod Written
use mathlib.Core.Option
use ticker_cash.Prelude.{
  ℕ, zero, suc, ◌+◌, ◌-◌, ◌*◌, ◌%◌, Bool, true, false, ◌&&◌, not, Option, none, some, List, [], ◌∷◌,
  ◌++◌, length, map, replicate, ◌==◌, leb, ltb, if◌then◌else◌, Result, ok, err, ◌>>=◌, ◌>>◌,
  refuse_if,
}
use ticker_cash.Bytes.{Bytes, bytes_eq, u32_mod, u64_mod, wrapping_sub}
use ticker_cash.Text.{Text}
use ticker_cash.External.{External}
use ticker_cash.Commit.Clock.{current_minute}
use ticker_cash.Crypto.Hash.{double_sha256}
use ticker_cash.Crypto.Schnorr.{KeyError, schnorr_sign}
use ticker_cash.Manifest.{
  TableRow, ElectrumEndpoint, Manifest, ManifestError, manifest_version, validate, validate_rows,
  table_bytes, table_hash_bytes,
}
use ticker_cash.Keyfile.{KeyMaterial}
use ticker_cash.Tx.Types.{TxOutpoint, Input, Output, Tx, new_tx, sequence_final}
use ticker_cash.Tx.Encode.{encode_tx, txid_be}
use ticker_cash.Tx.Script.{p2pkh_locking_script}
use ticker_cash.Tx.Covenant.{Artifacts, oracle_lock, ticker_lock, table_hash}
use ticker_cash.Tx.Sighash.{SpentOutput, sighash_preimage, sighash_all_utxos_forkid}
use ticker_cash.Tx.Build.Types.{P2pkhInput, BuiltTx, BuildError}
use ticker_cash.Tx.Build.Sign.{Outcome, p2pkh_placeholder, set_unlock, signed_unlock}
use ticker_cash.Tx.Build.Genesis.{build_genesis}
use ticker_cash.Daemon.{Failure, not_built, Server}
use ticker_cash.Daemon.Chain.{answered}

pub record GenesisSpec : Type 0 where
  pub network : Text
  pub table : List TableRow
  pub electrum : List ElectrumEndpoint

pub data GenesisError : Type 0 where
  failed : Failure → GenesisError
  other_txid : Text → GenesisError

-- `coins.iter().find(|(op, v, _)| op.vout == 0 && *v >= need)`
unfoldable pub find_funding : ℕ → List (TxOutpoint × ℕ × ℕ) → Option (TxOutpoint × ℕ)
find_funding need [] = none
find_funding need ((op, v, height) ∷ rest) =
    if op.vout == 0 && leb need v then some (op, v) else find_funding need rest

-- The coins of a self-spend: from the first on, until they hold `target`; and what they hold.
unfoldable pub pick_coins : (target acc : ℕ) → List (TxOutpoint × ℕ × ℕ) → List (TxOutpoint × ℕ) × ℕ
pick_coins target acc [] = ([], acc)
pick_coins target acc ((op, v, height) ∷ rest) =
    let held = (acc + v) % u64_mod in
    let later = pick_coins target held rest in
    if leb target held then ((op, v) ∷ [], held) else ((op, v) ∷ later.0, later.1)

abbrev pub funding_input : KeyMaterial → TxOutpoint × ℕ → P2pkhInput
funding_input key (op, value) = record {
  outpoint = op;
  value = value;
  private_key = key.private_key;
  public_key = key.public_key;
  pkh = key.pkh;
}

-- `current_minute().saturating_sub(1) * 60`
abbrev pub initial_ts : ℕ → ℕ
initial_ts now = (current_minute now - 1) * 60 % u32_mod

module _ (x : External) where
  unfoldable pub spend_input : KeyMaterial → TxOutpoint × ℕ → Input
  spend_input key (op, v) = record {
    prev = op;
    unlock_script = p2pkh_placeholder key.public_key;
    sequence = sequence_final;
  }

  -- The transaction of `self_spend` before signing, at the value of its output.
  unfoldable pub spend_tx : KeyMaterial → List (TxOutpoint × ℕ) → ℕ → Tx
  spend_tx key coins value =
      new_tx (map (spend_input key) coins)
        (record { value = value; locking_script = p2pkh_locking_script key.pkh; token = none } ∷ [])

  -- The signing loop from input `i` on, with `left` inputs to sign; `none` as in the builders.
  unfoldable pub sign_from :
      (fuel : ℕ) → KeyMaterial → List SpentOutput → (left i : ℕ) → Tx → Option (Result KeyError Tx)
  sign_from fuel key sources zero i tx = some (ok tx)
  sign_from fuel key sources (suc left) i tx =
      elim (sighash_preimage x tx i (p2pkh_locking_script key.pkh) sources
        sighash_all_utxos_forkid) [
          | none ↦ none
          | some preimage ↦ elim (schnorr_sign x fuel key.private_key (double_sha256 x preimage)) [
            | none ↦ none
            | some (err e) ↦ some (err e)
            | some (ok sig) ↦
                sign_from fuel key sources left (suc i)
                  (record tx { inputs = set_unlock tx.inputs i (signed_unlock sig key.public_key) })
          ]
        ]

  abbrev pub spent_from : KeyMaterial → TxOutpoint × ℕ → SpentOutput
  spent_from key (op, v) = record {
    value = v;
    locking_script = p2pkh_locking_script key.pkh;
    token = none;
  }

  -- `self_spend`: the transaction's id, its bytes and its value.
  unfoldable pub self_spend :
      (fuel : ℕ)
      → KeyMaterial
      → List (TxOutpoint × ℕ)
      → (total : ℕ) → Option (Result KeyError (Bytes × Bytes × ℕ))
  self_spend fuel key coins total =
      let fee = (length (encode_tx (spend_tx key coins 0)) + 1) % u64_mod in
      let value = wrapping_sub total fee in
      elim (sign_from fuel key (map (spent_from key) coins) (length coins) 0
        (spend_tx key coins value)) [
          | none ↦ none
          | some (err e) ↦ some (err e)
          | some (ok tx) ↦ some (ok (txid_be x (encode_tx tx), encode_tx tx, value))
        ]

  module _ (a : Artifacts) where
    unfoldable pub provisional_manifest : GenesisSpec → Result ManifestError Manifest
    provisional_manifest spec = do
      validate_rows x spec.table
      let m : Manifest = record {
        version = manifest_version;
        network = spec.network;
        category = replicate 64 b'0';
        genesis_txid = [];
        oracle_lock = x.hex_encode (oracle_lock x a);
        ticker_lock = x.hex_encode (ticker_lock a);
        table_hash = x.hex_encode (table_hash x (table_bytes x spec.table));
        table = spec.table;
        electrum = spec.electrum;
      }
      validate x a m
      ok m

    -- The manifest with the category and the transaction of the deployment.
    abbrev pub opened_manifest : Manifest → TxOutpoint → BuiltTx → Manifest
    opened_manifest m op built = record m {
      category = x.hex_encode op.txid_be;
      genesis_txid = x.hex_encode built.txid;
    }

    -- The node must return the id that was computed.
    abbrev pub with_txid : Result Failure Text → Manifest → Result GenesisError Manifest
    with_txid (err e) m = err (failed e)
    with_txid (ok txid) m = if bytes_eq txid m.genesis_txid then ok m else err (other_txid txid)

    abbrev pub publish :
        Server → Manifest → TxOutpoint → Outcome BuiltTx → Option (Result GenesisError Manifest)
    publish server m op none = none
    publish server m op (some (err e)) = some (err (failed (not_built e)))
    publish server m op (some (ok built)) =
        some (with_txid (answered (server.broadcast_raw built.raw)) (opened_manifest m op built))

    -- The end of `genesis` without `dry_run`, from the funding coin on: the manifest that is written.
    unfoldable pub open_with :
        (fuel : ℕ)
        → Server
        → Manifest
        → KeyMaterial
        → TxOutpoint × ℕ
        → (reserve now : ℕ) → Option (Result GenesisError Manifest)
    open_with fuel server m key funding reserve now = publish server m funding.0 (
        build_genesis x a fuel (funding_input key funding) (table_hash_bytes x m) reserve
          (initial_ts now))
