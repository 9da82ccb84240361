-- ===== src/Tx/Build/Rotate.antt =====
-- node/core/src/tx/build.rs: `rotate_generic`, `build_rotate` and `build_migration`.
pub mod Drafts
pub mod Built
use mathlib.Core.Option
use ticker_cash.Prelude.{
  ℕ, ◌+◌, ◌-◌, ◌%◌, Bool, false, Option, none, some, List, [], ◌∷◌, ◌++◌, length, replicate, take,
  map, ltb, if◌then◌else◌, Result, ok, err, ◌>>=◌, ◌>>◌, refuse_if,
}
use ticker_cash.Bytes.{Bytes, u64_mod, wrapping_sub}
use ticker_cash.Constants.{sequence_timelock}
use ticker_cash.External.{External}
use ticker_cash.Commit.Types.{snapshot_len, HeadCommit}
use ticker_cash.Commit.Legacy.{HeadCommit26, snapshot26_len}
use ticker_cash.Statement.{Approval}
use ticker_cash.Tx.Types.{TxOutpoint, Input, Output, Tx, new_tx, minting_capability}
use ticker_cash.Tx.Encode.{encode_tx}
use ticker_cash.Tx.Script.{push_data, push_int}
use ticker_cash.Tx.Sighash.{SpentOutput}
use ticker_cash.Tx.Covenant.{Artifacts, oracle_lock, oracle_redeem, oracle26_lock, oracle26_redeem}
use ticker_cash.Tx.Build.Types.{
  BuildError, above_fee_cap, insufficient, HeadUtxo, LegacyHeadUtxo, P2pkhInput, BuiltTx,
  category_le, p2pkh_dust,
}
use ticker_cash.Tx.Build.Select.{Placed, row_of, place_approvals}
use ticker_cash.Tx.Build.Sign.{
  Outcome, Draft, sign_drafted, fee_cap, add_values, topup_input, topup_source, signers_from,
}
use ticker_cash.Tx.Build.Update.{token_of}

-- The arguments of `rotate_generic` that describe the head that is spent.
pub record Spent : Type 0 where
  pub outpoint : TxOutpoint
  pub value : ℕ
  pub raw_commit : Bytes
  pub state : Bytes
  pub category : Bytes
  pub lock_in : Bytes
  pub redeem : Bytes

unfoldable pub approval_sigs : List (Placed Bytes) → Bytes
approval_sigs [] = []
approval_sigs (p ∷ rest) = p.1 ++ approval_sigs rest

unfoldable pub rotate_unlock : Bytes → Bytes → List (Placed Bytes) → Bytes
rotate_unlock redeem table placed =
    push_data (approval_sigs placed)
    ++ (push_data (map row_of placed)
        ++ (push_data table
            ++ (push_int (record { negative = false; unsigned_abs = 1 }) ++ push_data redeem)))

unfoldable pub rotate_inputs : Spent → Bytes → List P2pkhInput → List Input
rotate_inputs spent unlock topups =
    (record { prev = spent.outpoint; unlock_script = unlock; sequence = sequence_timelock } ∷ [])
    ++ map topup_input topups

unfoldable pub rotate_sources : Spent → List P2pkhInput → List SpentOutput
rotate_sources spent topups =
    record {
      value = spent.value;
      locking_script = spent.lock_in;
      token = token_of (category_le spent.category) minting_capability spent.raw_commit;
    }
    ∷ map topup_source topups

unfoldable pub rotate_outputs : Spent → (next_lock tail : Bytes) → (value : ℕ) → List Output
rotate_outputs spent next_lock tail value =
    record {
      value = value;
      locking_script = next_lock;
      token = token_of (category_le spent.category) minting_capability (spent.state ++ tail);
    }
    ∷ []

unfoldable pub rotate_tx :
    Spent
    → Bytes
    → List (Placed Bytes)
    → (next_lock tail : Bytes) → List P2pkhInput
    → (value : ℕ) → Tx
rotate_tx spent table placed next_lock tail topups value =
    new_tx (rotate_inputs spent (rotate_unlock spent.redeem table placed) topups)
      (rotate_outputs spent next_lock tail value)

unfoldable pub draft_rotate :
    Spent
    → Bytes
    → List (Placed Bytes)
    → (next_lock tail : Bytes) → List P2pkhInput
    → Result BuildError Draft
draft_rotate spent table placed next_lock tail topups = do
  let total = add_values spent.value (map (λ t. t.value) topups)
  let fee =
      (length (encode_tx (rotate_tx spent table placed next_lock tail topups 0)) + 1) % u64_mod
  let cap = fee_cap (length (rotate_unlock spent.redeem table placed))
  refuse_if (ltb cap fee) (above_fee_cap fee cap)
  refuse_if (ltb total ((fee + p2pkh_dust) % u64_mod)) (insufficient total)
  ok (record {
    tx = rotate_tx spent table placed next_lock tail topups (wrapping_sub total fee);
    sources = rotate_sources spent topups;
    signers = signers_from 1 topups;
    fee = fee;
  })

-- Four filler bytes, so that the table hash lands where v27 reads it.
unfoldable pub migration_tail : Bytes → Bytes
migration_tail table_hash_on_chain = replicate 4 0 ++ table_hash_on_chain

module _ (x : External) (a : Artifacts) where
  -- `none` also where `head.raw` is shorter than the snapshot and the source's slice panics.
  unfoldable pub state_of : ℕ → Bytes → Option Bytes
  state_of len raw = if ltb (length raw) len then none else some (take len raw)

  abbrev pub spent_head : HeadUtxo → Bytes → Spent
  spent_head head state = record {
    outpoint = head.outpoint;
    value = head.value;
    raw_commit = head.raw;
    state = state;
    category = head.category;
    lock_in = oracle_lock x a;
    redeem = oracle_redeem a;
  }

  abbrev pub spent_legacy : LegacyHeadUtxo → Bytes → Spent
  spent_legacy head state = record {
    outpoint = head.outpoint;
    value = head.value;
    raw_commit = head.raw;
    state = state;
    category = head.category;
    lock_in = oracle26_lock x a;
    redeem = oracle26_redeem a;
  }

  -- The approvals are placed before the state is cut off, so their error comes first.
  unfoldable pub rotate_generic :
      ℕ
      → Result BuildError (List (Placed Bytes))
      → Option Spent
      → Bytes
      → (next_lock tail : Bytes) → List P2pkhInput
      → Outcome BuiltTx
  rotate_generic fuel (err e) spent table next_lock tail topups = some (err e)
  rotate_generic fuel (ok placed) none table next_lock tail topups = none
  rotate_generic fuel (ok placed) (some spent) table next_lock tail topups =
      sign_drafted x fuel (draft_rotate spent table placed next_lock tail topups)

  unfoldable pub build_rotate :
      ℕ
      → HeadUtxo
      → Bytes
      → (next_lock tail : Bytes) → List Approval
      → List P2pkhInput
      → Outcome BuiltTx
  build_rotate fuel head table next_lock tail approvals topups =
      let cat_vm = category_le head.category in
      rotate_generic fuel
        (place_approvals x table head.commit.table_hash cat_vm next_lock tail approvals)
        (Option.map (spent_head head) (state_of snapshot_len head.raw)) table next_lock tail topups

  unfoldable pub build_migration :
      ℕ → LegacyHeadUtxo → Bytes → List Approval → List P2pkhInput → Outcome BuiltTx
  build_migration fuel head table approvals topups =
      let cat_vm = category_le head.category in
      let next_lock = oracle_lock x a in
      let tail = migration_tail head.commit.table_hash in
      rotate_generic fuel
        (place_approvals x table head.commit.table_hash cat_vm next_lock tail approvals)
        (Option.map (spent_legacy head) (state_of snapshot26_len head.raw)) table next_lock tail
        topups
