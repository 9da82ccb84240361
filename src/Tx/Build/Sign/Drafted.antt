-- ===== src/Tx/Build/Sign/Drafted.antt =====
-- What a builder returns from a draft: the signed transaction, of the size that the fee is for.
use ticker_cash.Prelude.{
  ℕ, ◌≡◌, refl, sym, ap, ◌∙◌, subst, none, some, List, length, Result, ok, err, All,
}
use ticker_cash.External.{External}
use ticker_cash.Crypto.Schnorr.Verify.{CurveLaws}
use ticker_cash.Tx.Types.{Tx}
use ticker_cash.Tx.Encode.{encode_tx, encode_outputs}
use ticker_cash.Tx.Size.{length-encode_tx}
use ticker_cash.Tx.Build.Types.{BuildError, P2pkhInput, BuiltTx, finish}
use ticker_cash.Tx.Build.Sign.{Outcome, Draft, sign_p2pkh_inputs, sign_draft, sign_drafted}
use ticker_cash.Tx.Build.Sign.Layout.{
  IsPlaced, IsSignedFrom, sign_p2pkh_inputs-IsSignedFrom, sign_p2pkh_inputs-outputs,
}

finished :
    (x : External) (fee : ℕ) (o : Outcome Tx) {built : BuiltTx}
    → elim o [
      | none ↦ none
      | some (err e) ↦ some (err e)
      | some (ok tx) ↦ some (ok (finish x tx fee))
    ]
      ≡ some (ok built)
    → (tx : Tx) × (o ≡ some (ok tx)) × (finish x tx fee ≡ built)
finished x fee none h = cc
finished x fee (some (err e)) h = cc
finished x fee (some (ok tx)) h = (tx, refl, cc)

IsSignedFrom-size :
    (x : External) (laws : CurveLaws x) (tx signed : Tx) (signers : List (ℕ × P2pkhInput))
    → IsSignedFrom x laws tx signers signed
    → length (encode_tx signed) ≡ length (encode_tx tx)
IsSignedFrom-size x laws tx signed signers (same, layout, first) = sym (
    length-encode_tx tx signed layout (ap (λ t. length (Tx.outputs t)) (sym same))
      (ap (λ t. length (encode_outputs (Tx.outputs t))) (sym same)))

-- A draft that is signed: sized by what it becomes, for a successful signing changes no size.
pub sign_drafted-eq-ok :
    (x : External) (laws : CurveLaws x) (fuel : ℕ) (m : Result BuildError Draft) (built : BuiltTx)
    → sign_drafted x fuel m ≡ some (ok built)
    → ((draft : Draft) → m ≡ ok draft → All (IsPlaced (Tx.inputs draft.tx)) draft.signers)
    → (draft : Draft) × (m ≡ ok draft)
      × (built ≡ finish x built.tx draft.fee)
      × IsSignedFrom x laws draft.tx draft.signers built.tx
      × (built.size ≡ length (encode_tx draft.tx))
unfolding sign_drafted sign_draft finish
sign_drafted-eq-ok x laws fuel (err e) built h placed = cc
sign_drafted-eq-ok x laws fuel (ok draft) built h placed =
    let (tx, signed, same) =
      finished x draft.fee (sign_p2pkh_inputs x fuel draft.tx draft.sources draft.signers) h in
    let from =
      sign_p2pkh_inputs-IsSignedFrom x laws fuel draft.tx tx draft.sources draft.signers signed
        (placed draft refl) in
    subst
      (λ built.
        (draft' : Draft) × (◌≡◌ {A = Result BuildError Draft} (ok draft) (ok draft'))
        × (built ≡ finish x (BuiltTx.tx built) draft'.fee)
        × IsSignedFrom x laws draft'.tx draft'.signers (BuiltTx.tx built)
        × (BuiltTx.size built ≡ length (encode_tx draft'.tx)))
      same (draft, refl, refl, from, IsSignedFrom-size x laws draft.tx tx draft.signers from)

-- What is signed has the outputs of its draft.
pub sign_drafted-outputs :
    (x : External) (fuel : ℕ) (m : Result BuildError Draft) (built : BuiltTx)
    → sign_drafted x fuel m ≡ some (ok built)
    → (draft : Draft) × (m ≡ ok draft) × (built.tx.outputs ≡ Tx.outputs draft.tx)
unfolding sign_drafted sign_draft finish
sign_drafted-outputs x fuel (err e) built h = cc
sign_drafted-outputs x fuel (ok draft) built h =
    let (tx, signed, same) =
      finished x draft.fee (sign_p2pkh_inputs x fuel draft.tx draft.sources draft.signers) h in
    (
      draft,
      refl,
      ap (λ (b : BuiltTx). b.tx.outputs) (sym same)
          ∙ sign_p2pkh_inputs-outputs x fuel draft.tx tx draft.sources draft.signers signed,
    )
