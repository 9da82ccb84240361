-- ===== src/Tx/Build/Update/Drafts.antt =====
-- What `draft_update` lays out: a transaction whose size does not hang on the value of its head.
use ticker_cash.Prelude.{
  ℕ, ◌+◌, ◌*◌, ◌-◌, ◌%◌, ◌≤◌, ◌≡◌, refl, ap, subst, List, ◌∷◌, length, map, drop, ltb, ok,
  refuse_if-eq-ok, ok-injective, All, length-append, length-map, arith,
}
use ticker_cash.Bytes.{Bytes, u64_mod}
use ticker_cash.Constants.{ticker_sats, tickers_per_update, sequence_timelock}
use ticker_cash.External.{External}
use ticker_cash.Commit.Types.{Snapshot}
use ticker_cash.Commit.HeadCommit
use ticker_cash.Statement.{Statement}
use ticker_cash.Tx.Types.{Input, Output, Tx, minting_capability}
use ticker_cash.Tx.Encode.{encode_tx, encode_output, encode_outputs}
use ticker_cash.Tx.Size.{SameLayout-refl, length-encode_output, length-encode_tx}
use ticker_cash.Tx.Covenant.{Artifacts, oracle_lock}
use ticker_cash.Tx.Build.Types.{HeadUtxo, TickerUtxo, P2pkhInput, category_le}
use ticker_cash.Tx.Build.Select.{Placed}
use ticker_cash.Tx.Build.Sign.{Draft, fee_cap, add_values, signers_from}
use ticker_cash.Tx.Build.Sign.Layout.{IsPlaced, topups-IsPlaced}
use ticker_cash.Tx.Build.Update.{
  token_of, recycled_input, update_snapshot, update_unlock, update_inputs, update_outputs,
  update_tx, input_values, draft_update,
}

module _ (x : External) (a : Artifacts) where
  abbrev head_output : HeadUtxo → Snapshot → ℕ → Output
  head_output head snapshot value = record {
    value = value;
    locking_script = oracle_lock x a;
    token =
        token_of (category_le head.category) minting_capability
          (HeadCommit.encode (record { snapshot = snapshot; table_hash = head.commit.table_hash }));
  }

  length-update_outputs :
      (head : HeadUtxo) (snapshot : Snapshot) (v w : ℕ)
      → length (encode_outputs (update_outputs x a head snapshot v))
        ≡ length (encode_outputs (update_outputs x a head snapshot w))
  unfolding update_outputs encode_outputs
  length-update_outputs head snapshot v w =
      let tickers = encode_outputs (drop 1 (update_outputs x a head snapshot v)) in
      let at = λ (value : ℕ). head_output head snapshot value in
      omega (
        arith,
        length-append (encode_output (at v)) tickers,
        length-append (encode_output (at w)) tickers,
        length-encode_output (at v) w,
      )

  size-update_tx :
      (head : HeadUtxo) (table : Bytes) (placed : List (Placed Statement))
      (recycled : List TickerUtxo) (topups : List P2pkhInput) (v w : ℕ)
      → length (encode_tx (update_tx x a head table placed recycled topups v))
        ≡ length (encode_tx (update_tx x a head table placed recycled topups w))
  unfolding update_tx update_outputs
  size-update_tx head table placed recycled topups v w =
      let inputs = update_inputs x a head (update_unlock x a table placed) recycled topups in
      length-encode_tx (update_tx x a head table placed recycled topups v)
        (update_tx x a head table placed recycled topups w) (SameLayout-refl inputs) refl
        (length-update_outputs head (update_snapshot head placed) v w)

  -- The drafted transaction: fee, value of output 0 and signers.
  abbrev pub IsUpdateDraft :
      HeadUtxo
      → Bytes
      → List (Placed Statement)
      → List TickerUtxo
      → List P2pkhInput
      → Draft
      → Type 0
  IsUpdateDraft head table placed recycled topups draft =
      (value : ℕ) × (draft.tx ≡ update_tx x a head table placed recycled topups value)
      × (draft.signers ≡ signers_from (1 + length recycled) topups)
      × (draft.fee ≡ (length (encode_tx draft.tx) + 1) % u64_mod)
      × (draft.fee ≤ fee_cap (length (update_unlock x a table placed)))
      × (value + (draft.fee + ticker_sats * tickers_per_update) % u64_mod
          ≡ add_values head.value (input_values head recycled topups))

  pub draft_update-eq-ok :
      (head : HeadUtxo) (table : Bytes) (placed : List (Placed Statement))
      (recycled : List TickerUtxo) (topups : List P2pkhInput) (draft : Draft)
      → draft_update x a head table placed recycled topups ≡ ok draft
      → IsUpdateDraft head table placed recycled topups draft
  unfolding draft_update
  draft_update-eq-ok head table placed recycled topups draft e =
      let total = add_values head.value (input_values head recycled topups) in
      let size = length (encode_tx (update_tx x a head table placed recycled topups 0)) in
      let fee = (size + 1) % u64_mod in
      let cap = fee_cap (length (update_unlock x a table placed)) in
      let spend = (fee + ticker_sats * tickers_per_update) % u64_mod in
      let (within, e1) = refuse_if-eq-ok (ltb cap fee) _ _ e in
      let (covered, e2) = refuse_if-eq-ok (ltb total spend) _ _ e1 in
      subst (IsUpdateDraft head table placed recycled topups) (ok-injective e2) (
        total - spend,
        refl,
        refl,
        ap (λ size. (size + 1) % u64_mod)
            (size-update_tx head table placed recycled topups 0 (total - spend)),
        ground arith,
        ground arith,
      )

  pub draft-IsPlaced :
      (head : HeadUtxo) (table : Bytes) (placed : List (Placed Statement))
      (recycled : List TickerUtxo) (topups : List P2pkhInput) (draft : Draft)
      → IsUpdateDraft head table placed recycled topups draft
      → All (IsPlaced (Tx.inputs draft.tx)) draft.signers
  unfolding update_tx update_inputs
  draft-IsPlaced head table placed recycled topups draft
        (value, is_tx, signers, fee, capped, paid) =
      let first : Input = record {
        prev = head.outpoint;
        unlock_script = update_unlock x a table placed;
        sequence = sequence_timelock;
      } in
      let front : List Input = first ∷ map recycled_input recycled in
      let many : length front ≡ 1 + length recycled =
        omega (arith, length-map recycled recycled_input) in
      rw (is_tx, signers, ← many) (topups-IsPlaced front topups)
