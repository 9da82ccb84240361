-- ===== src/Tx/Build/Rotate/Drafts.antt =====
-- What `draft_rotate` lays out: a transaction whose size does not hang on the value of its head
-- (node/core/src/tx/build.rs).
use ticker_cash.Prelude.{
  ℕ, ◌+◌, ◌%◌, ◌≤◌, ◌≡◌, refl, ap, subst, List, [], ◌∷◌, ◌++◌, length, map, ltb, ok,
  refuse_if-eq-ok, ok-injective, All, length-append, arith,
}
use ticker_cash.Bytes.{Bytes, u64_mod, wrapping_sub}
use ticker_cash.Constants.{sequence_timelock}
use ticker_cash.Tx.Types.{Output, Tx, minting_capability}
use ticker_cash.Tx.Encode.{encode_tx, encode_output, encode_outputs}
use ticker_cash.Tx.Size.{SameLayout-refl, length-encode_output, length-encode_tx}
use ticker_cash.Tx.Build.Types.{P2pkhInput, category_le, p2pkh_dust}
use ticker_cash.Tx.Build.Select.{Placed}
use ticker_cash.Tx.Build.Sign.{Draft, fee_cap, add_values, signers_from}
use ticker_cash.Tx.Build.Sign.Layout.{IsPlaced, topups-IsPlaced}
use ticker_cash.Tx.Build.Update.{token_of}
use ticker_cash.Tx.Build.Rotate.{
  Spent, rotate_unlock, rotate_inputs, rotate_outputs, rotate_tx, draft_rotate,
}

module _ (spent : Spent) (table next_lock tail : Bytes) (placed : List (Placed Bytes))
    (topups : List P2pkhInput) where
  size-rotate_tx :
      (v w : ℕ)
      → length (encode_tx (rotate_tx spent table placed next_lock tail topups v))
        ≡ length (encode_tx (rotate_tx spent table placed next_lock tail topups w))
  unfolding rotate_tx rotate_outputs encode_outputs
  size-rotate_tx v w =
      let out : Output = record {
        value = v;
        locking_script = next_lock;
        token = token_of (category_le spent.category) minting_capability (spent.state ++ tail);
      } in
      length-encode_tx (rotate_tx spent table placed next_lock tail topups v)
        (rotate_tx spent table placed next_lock tail topups w)
        (SameLayout-refl (rotate_inputs spent (rotate_unlock spent.redeem table placed) topups))
        refl
        (omega (
          arith,
          length-append (encode_output out) [],
          length-append (encode_output (record out { value = w })) [],
          length-encode_output out w,
        ))

  abbrev pub IsRotateDraft : Draft → Type 0
  IsRotateDraft draft =
      let total = add_values spent.value (map (λ t. t.value) topups) in
      (draft.tx ≡ rotate_tx spent table placed next_lock tail topups (wrapping_sub total draft.fee))
      × (draft.signers ≡ signers_from 1 topups)
      × (draft.fee ≡ (length (encode_tx draft.tx) + 1) % u64_mod)
      × (draft.fee ≤ fee_cap (length (rotate_unlock spent.redeem table placed)))
      × ((draft.fee + p2pkh_dust) % u64_mod ≤ total)

  pub draft_rotate-eq-ok :
      (draft : Draft)
      → draft_rotate spent table placed next_lock tail topups ≡ ok draft
      → IsRotateDraft draft
  unfolding draft_rotate
  draft_rotate-eq-ok draft e =
      let total = add_values spent.value (map (λ t. t.value) topups) in
      let size = length (encode_tx (rotate_tx spent table placed next_lock tail topups 0)) in
      let fee = (size + 1) % u64_mod in
      let cap = fee_cap (length (rotate_unlock spent.redeem table placed)) in
      let (within, e1) = refuse_if-eq-ok (ltb cap fee) _ _ e in
      let (covered, e2) = refuse_if-eq-ok (ltb total ((fee + p2pkh_dust) % u64_mod)) _ _ e1 in
      subst IsRotateDraft (ok-injective e2) (
        refl,
        refl,
        ap (λ size. (size + 1) % u64_mod) (size-rotate_tx 0 (wrapping_sub total fee)),
        ground arith,
        ground arith,
      )

  pub draft-IsPlaced :
      (draft : Draft) → IsRotateDraft draft → All (IsPlaced (Tx.inputs draft.tx)) draft.signers
  unfolding rotate_tx rotate_inputs
  draft-IsPlaced draft (is_tx, signers, fee, capped, covered) =
      rw (is_tx, signers)
        (topups-IsPlaced
          (record {
            prev = spent.outpoint;
            unlock_script = rotate_unlock spent.redeem table placed;
            sequence = sequence_timelock;
          }
            ∷ [])
          topups)
