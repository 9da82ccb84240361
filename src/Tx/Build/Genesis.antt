-- ===== src/Tx/Build/Genesis.antt =====
-- node/core/src/tx/build.rs: `build_genesis`.
pub mod Built
use ticker_cash.Prelude.{
  ℕ, ◌+◌, ◌-◌, ◌%◌, Bool, not, Option, none, List, [], ◌∷◌, length, ◌==◌, ltb, if◌then◌else◌,
  Result, ok, err, ◌>>=◌, ◌>>◌, refuse_if,
}
use ticker_cash.Bytes.{Bytes, u64_mod, wrapping_sub}
use ticker_cash.Constants.{sequence_timelock}
use ticker_cash.External.{External}
use ticker_cash.Commit.Types.{Snapshot, HeadCommit}
use ticker_cash.Commit.HeadCommit
use ticker_cash.Tx.Types.{Input, Output, Tx, new_tx, minting_capability}
use ticker_cash.Tx.Encode.{encode_tx}
use ticker_cash.Tx.Script.{p2pkh_locking_script}
use ticker_cash.Tx.Covenant.{Artifacts, oracle_lock}
use ticker_cash.Tx.Build.Types.{
  BuildError, bad_genesis_vout, insufficient, P2pkhInput, BuiltTx, category_le, p2pkh_dust,
}
use ticker_cash.Tx.Build.Sign.{Outcome, Draft, sign_drafted, topup_input, topup_source}
use ticker_cash.Tx.Build.Update.{token_of}

module _ (x : External) (a : Artifacts) where
  abbrev pub genesis_commit : Bytes → ℕ → HeadCommit
  genesis_commit table_hash initial_ts = record {
    snapshot = record { ts = initial_ts; seq = 0; price = 0; k = 0 };
    table_hash = table_hash;
  }

  -- The head with the reserve, and the change.
  unfoldable pub genesis_outputs :
      P2pkhInput → Bytes → (reserve initial_ts change : ℕ) → List Output
  genesis_outputs funding table_hash reserve initial_ts change =
      record {
        value = reserve;
        locking_script = oracle_lock x a;
        token =
            token_of (category_le funding.outpoint.txid_be) minting_capability
              (HeadCommit.encode (genesis_commit table_hash initial_ts));
      }
      ∷ record { value = change; locking_script = p2pkh_locking_script funding.pkh; token = none }
      ∷ []

  unfoldable pub genesis_tx : P2pkhInput → Bytes → (reserve initial_ts change : ℕ) → Tx
  genesis_tx funding table_hash reserve initial_ts change =
      new_tx (topup_input funding ∷ [])
        (genesis_outputs funding table_hash reserve initial_ts change)

  unfoldable pub draft_genesis :
      P2pkhInput → Bytes → (reserve initial_ts : ℕ) → Result BuildError Draft
  draft_genesis funding table_hash reserve initial_ts = do
    refuse_if (not (funding.outpoint.vout == 0)) bad_genesis_vout
    let fee =
        (length (encode_tx (genesis_tx funding table_hash reserve initial_ts 0)) + 1) % u64_mod
    refuse_if (ltb funding.value (((reserve + fee) % u64_mod + p2pkh_dust) % u64_mod))
        (insufficient funding.value)
    ok (record {
      tx =
          genesis_tx funding table_hash reserve initial_ts
            (wrapping_sub (wrapping_sub funding.value reserve) fee);
      sources = topup_source funding ∷ [];
      signers = (0, funding) ∷ [];
      fee = fee;
    })

  unfoldable pub build_genesis : ℕ → P2pkhInput → Bytes → (reserve initial_ts : ℕ) → Outcome BuiltTx
  build_genesis fuel funding table_hash reserve initial_ts =
      sign_drafted x fuel (draft_genesis funding table_hash reserve initial_ts)
