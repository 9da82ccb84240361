-- ===== src/Tx/Build/Sign.antt =====
-- node/core/src/tx/build.rs: the P2PKH inputs of a transaction, laid out with a placeholder and then
-- signed, and the sums and caps that the builders share.
pub mod Layout
pub mod Values
pub mod Drafted
pub mod Preimage
use ticker_cash.Prelude.{
  ℕ, zero, suc, ◌+◌, ◌*◌, ◌%◌, Option, none, some, List, [], ◌∷◌, ◌++◌, length, replicate, map,
  Result, ok, err, and_then,
}
use ticker_cash.Bytes.{Bytes, u64_mod}
use ticker_cash.Constants.{fee_cap_base_sats, fee_cap_per_unlock_byte, sequence_timelock}
use ticker_cash.External.{External}
use ticker_cash.Crypto.Hash.{double_sha256}
use ticker_cash.Crypto.Schnorr.{schnorr_sign}
use ticker_cash.Tx.Types.{TxOutpoint, Input, Tx}
use ticker_cash.Tx.Script.{push_data, p2pkh_locking_script}
use ticker_cash.Tx.Sighash.{SpentOutput, sighash_preimage, sighash_all_utxos_forkid}
use ticker_cash.Tx.Build.Types.{BuildError, bad_key, P2pkhInput, BuiltTx, finish}

-- A `Result` from a function that may also panic or run out of fuel, which is `none`.
abbrev pub Outcome : Type 0 → Type 0
Outcome A = Option (Result BuildError A)

unfoldable pub p2pkh_placeholder : Bytes → Bytes
p2pkh_placeholder public_key = push_data (replicate 65 0) ++ push_data public_key

-- `tx.inputs[idx].unlock_script = unlock`
unfoldable pub set_unlock : List Input → ℕ → Bytes → List Input
set_unlock [] idx unlock = []
set_unlock (i ∷ rest) zero unlock = record i { unlock_script = unlock } ∷ rest
set_unlock (i ∷ rest) (suc idx) unlock = i ∷ set_unlock rest idx unlock

abbrev pub signed_unlock : (sig public_key : Bytes) → Bytes
signed_unlock sig public_key =
    push_data (sig ++ (sighash_all_utxos_forkid ∷ [])) ++ push_data public_key

unfoldable pub sign_p2pkh_inputs :
    External → ℕ → Tx → List SpentOutput → List (ℕ × P2pkhInput) → Outcome Tx
sign_p2pkh_inputs x fuel tx sources [] = some (ok tx)
sign_p2pkh_inputs x fuel tx sources ((idx, t) ∷ rest) =
    let script_code = p2pkh_locking_script t.pkh in
    elim (sighash_preimage x tx idx script_code sources sighash_all_utxos_forkid) [
      | none ↦ none
      | some preimage ↦ elim (schnorr_sign x fuel t.private_key (double_sha256 x preimage)) [
        | none ↦ none
        | some (err e) ↦ some (err (bad_key e))
        | some (ok sig) ↦
            let signed = record tx {
              inputs = set_unlock tx.inputs idx (signed_unlock sig t.public_key);
            } in
            sign_p2pkh_inputs x fuel signed sources rest
      ]
    ]

-- A transaction before signing: its inputs' coins, who signs which input, and its fee.
pub record Draft : Type 0 where
  pub tx : Tx
  pub sources : List SpentOutput
  pub signers : List (ℕ × P2pkhInput)
  pub fee : ℕ

-- The end of every builder: sign and encode.
unfoldable pub sign_draft : External → ℕ → Draft → Outcome BuiltTx
sign_draft x fuel draft = elim (sign_p2pkh_inputs x fuel draft.tx draft.sources draft.signers) [
  | none ↦ none
  | some (err e) ↦ some (err e)
  | some (ok tx) ↦ some (ok (finish x tx draft.fee))
]

unfoldable pub sign_drafted : External → ℕ → Result BuildError Draft → Outcome BuiltTx
sign_drafted x fuel (err e) = some (err e)
sign_drafted x fuel (ok draft) = sign_draft x fuel draft

unfoldable pub fee_cap : ℕ → ℕ
fee_cap unlock_len = (fee_cap_base_sats + fee_cap_per_unlock_byte * unlock_len) % u64_mod

-- `total += t.value` over a list of values; a u64 wraps.
unfoldable pub add_values : ℕ → List ℕ → ℕ
add_values total [] = total
add_values total (value ∷ rest) = add_values ((total + value) % u64_mod) rest

-- What the loop over the top-ups pushes, and the signers with their indexes from `idx` on.
abbrev pub topup_input : P2pkhInput → Input
topup_input t = record {
  prev = t.outpoint;
  unlock_script = p2pkh_placeholder t.public_key;
  sequence = sequence_timelock;
}

abbrev pub topup_source : P2pkhInput → SpentOutput
topup_source t = record {
  value = t.value;
  locking_script = p2pkh_locking_script t.pkh;
  token = none;
}

unfoldable pub signers_from : ℕ → List P2pkhInput → List (ℕ × P2pkhInput)
signers_from idx [] = []
signers_from idx (t ∷ rest) = (idx, t) ∷ signers_from (suc idx) rest
