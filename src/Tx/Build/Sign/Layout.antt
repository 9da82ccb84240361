-- ===== src/Tx/Build/Sign/Layout.antt =====
-- Signing keeps the layout of a transaction, so the size that the fee was computed from.
use ticker_cash.Prelude.{
  ℕ, zero, suc, ◌+◌, ◌≤◌, ◌<◌, ◌≡◌, refl, sym, ap, ◌∙◌, subst, Option, none, some, List, [], ◌∷◌,
  ◌++◌, length, replicate, map, get_elem?, leb, if◌then◌else◌, Result, ok, err, All, All-imp,
  get_elem?-append, append_assoc, length-append, some-injective, ok-injective, arith,
}
use ticker_cash.Bytes.{Bytes, le_bytes}
use ticker_cash.External.{External}
use ticker_cash.Crypto.Hash.{double_sha256}
use ticker_cash.Crypto.Schnorr.{KeyError, schnorr_sign}
use ticker_cash.Crypto.Schnorr.Verify.{CurveLaws, schnorr_sign-verifies}
use ticker_cash.Tx.Types.{Input, Tx}
use ticker_cash.Tx.Script.{push_data, push_sized, p2pkh_locking_script}
use ticker_cash.Tx.Size.{SameLayout, SameLayout-refl, SameLayout-trans}
use ticker_cash.Tx.Sighash.{SpentOutput, sighash_preimage, sighash_all_utxos_forkid}
use ticker_cash.Tx.Build.Types.{bad_key, P2pkhInput}
use ticker_cash.Tx.Build.Sign.{
  Outcome, p2pkh_placeholder, set_unlock, signed_unlock, sign_p2pkh_inputs, topup_input,
  signers_from,
}

-- The unlocking script of an input has a length.
abbrev pub UnlockLen : List Input → ℕ → ℕ → Type 0
UnlockLen inputs idx len =
    (i : Input) × (get_elem? inputs idx ≡ some i) × (length i.unlock_script ≡ len)

push_len : ℕ → ℕ
push_len n = (if leb n 75 then 1 else if leb n 0xff then 2 else if leb n 0xffff then 3 else 5) + n

push_sized-length : (bytes : Bytes) → length (push_sized bytes) ≡ push_len (length bytes)
unfolding push_sized push_len le_bytes
push_sized-length bytes = ground arith

-- Two strings of one length, two bytes at least, make pushes of one length.
push_data-length :
    (xs ys : Bytes)
    → length xs ≡ length ys
    → 2 ≤ length xs
    → length (push_data xs) ≡ length (push_data ys)
unfolding push_data
push_data-length [] ys h long = ground arith
push_data-length (x ∷ []) ys h long = ground arith
push_data-length (x ∷ x' ∷ xs) [] h long = ground arith
push_data-length (x ∷ x' ∷ xs) (y ∷ []) h long = ground arith
push_data-length (x ∷ x' ∷ xs) (y ∷ y' ∷ ys) h long =
    push_sized-length (x ∷ x' ∷ xs) ∙ ap push_len h ∙ sym (push_sized-length (y ∷ y' ∷ ys))

unlock-length :
    (sig public_key : Bytes)
    → length sig ≡ 64
    → length (signed_unlock sig public_key) ≡ length (p2pkh_placeholder public_key)
unfolding p2pkh_placeholder
unlock-length sig public_key len = omega (
  arith,
  length-append (push_data (sig ++ (sighash_all_utxos_forkid ∷ []))) (push_data public_key),
  length-append (push_data (replicate 65 0)) (push_data public_key),
  push_data-length (sig ++ (sighash_all_utxos_forkid ∷ [])) (replicate 65 0)
      (length-append sig (0x61 ∷ []) ∙ ap (λ n. n + 1) len)
      (omega (arith, length-append sig (sighash_all_utxos_forkid ∷ []), len)),
)

set_unlock-SameLayout :
    (inputs : List Input) (idx : ℕ) (unlock : Bytes)
    → UnlockLen inputs idx (length unlock)
    → SameLayout inputs (set_unlock inputs idx unlock)
unfolding set_unlock
set_unlock-SameLayout [] idx unlock h = tt
set_unlock-SameLayout (i ∷ rest) zero unlock (j, e, len) = (
  (
    refl,
    refl,
    subst (λ k. length (Input.unlock_script k) ≡ length unlock) (sym (some-injective e)) len,
  ),
  SameLayout-refl rest,
)
set_unlock-SameLayout (i ∷ rest) (suc idx) unlock h =
    ((refl, refl, refl), set_unlock-SameLayout rest idx unlock h)

-- A layout fixes the lengths of the unlocking scripts.
SameLayout-UnlockLen :
    (is js : List Input) (idx len : ℕ)
    → SameLayout is js
    → UnlockLen is idx len
    → UnlockLen js idx len
SameLayout-UnlockLen [] [] idx len h u = u
SameLayout-UnlockLen [] (j ∷ js) idx len h u = absurd h
SameLayout-UnlockLen (i ∷ is) [] idx len h u = absurd h
SameLayout-UnlockLen (i ∷ is) (j ∷ js) zero len ((a, b, c), h) (k, e, u) =
    (j, refl, sym c ∙ subst (λ k. length (Input.unlock_script k) ≡ len) (sym (some-injective e)) u)
SameLayout-UnlockLen (i ∷ is) (j ∷ js) (suc idx) len (c, h) u =
    SameLayout-UnlockLen is js idx len h u

set_unlock-other :
    (inputs : List Input) (idx : ℕ) (unlock : Bytes)
    → 0 < idx
    → get_elem? (set_unlock inputs idx unlock) 0 ≡ get_elem? inputs 0
unfolding set_unlock
set_unlock-other [] idx unlock h = refl
set_unlock-other (i ∷ rest) zero unlock h = absurd (omega arith)
set_unlock-other (i ∷ rest) (suc idx) unlock h = refl

-- A signer's input is laid out with its placeholder.
abbrev pub IsPlaced : List Input → ℕ × P2pkhInput → Type 0
IsPlaced inputs s = UnlockLen inputs s.0 (length (p2pkh_placeholder s.1.public_key))

signing-eq-ok :
    (o : Option (Result KeyError Bytes)) (k : Bytes → Outcome Tx) {tx : Tx}
    → elim o [ none ↦ none | some (err e) ↦ some (err (bad_key e)) | some (ok sig) ↦ k sig ]
      ≡ some (ok tx)
    → (sig : Bytes) × (o ≡ some (ok sig)) × (k sig ≡ some (ok tx))
signing-eq-ok none k h = cc
signing-eq-ok (some (err e)) k h = cc
signing-eq-ok (some (ok sig)) k h = (sig, refl, h)

preimage-eq-ok :
    (o : Option Bytes) (k : Bytes → Outcome Tx) {tx : Tx}
    → elim o [ none ↦ none | some preimage ↦ k preimage ] ≡ some (ok tx)
    → (preimage : Bytes) × (k preimage ≡ some (ok tx))
preimage-eq-ok none k h = cc
preimage-eq-ok (some preimage) k h = (preimage, h)

-- Signing changes inputs alone.
pub sign_p2pkh_inputs-outputs :
    (x : External) (fuel : ℕ) (tx signed : Tx) (sources : List SpentOutput)
    (signers : List (ℕ × P2pkhInput))
    → sign_p2pkh_inputs x fuel tx sources signers ≡ some (ok signed)
    → signed.outputs ≡ tx.outputs
unfolding sign_p2pkh_inputs
sign_p2pkh_inputs-outputs x fuel tx signed sources [] e =
    ap Tx.outputs (sym (ok-injective (some-injective e)))
sign_p2pkh_inputs-outputs x fuel tx signed sources ((idx, t) ∷ rest) e =
    let step : Bytes → Tx =
      λ sig. record tx { inputs = set_unlock tx.inputs idx (signed_unlock sig t.public_key) } in
    let (preimage, e1) =
      preimage-eq-ok
        (sighash_preimage x tx idx (p2pkh_locking_script t.pkh) sources sighash_all_utxos_forkid) _
        e in
    let (sig, made, e2) =
      signing-eq-ok (schnorr_sign x fuel t.private_key (double_sha256 x preimage))
        (λ sig. sign_p2pkh_inputs x fuel (step sig) sources rest) e1 in
    sign_p2pkh_inputs-outputs x fuel (step sig) signed sources rest e2

module _ (x : External) (laws : CurveLaws x) where
  -- What a successful signing leaves as it was.
  abbrev pub IsSignedFrom : Tx → List (ℕ × P2pkhInput) → Tx → Type 0
  IsSignedFrom tx signers signed =
      (signed ≡ record tx { inputs = signed.inputs })
      × SameLayout tx.inputs signed.inputs
      × (All (λ s. 0 < s.0) signers → get_elem? signed.inputs 0 ≡ get_elem? tx.inputs 0)

  pub sign_p2pkh_inputs-IsSignedFrom :
      (fuel : ℕ) (tx signed : Tx) (sources : List SpentOutput) (signers : List (ℕ × P2pkhInput))
      → sign_p2pkh_inputs x fuel tx sources signers ≡ some (ok signed)
      → All (IsPlaced tx.inputs) signers
      → IsSignedFrom tx signers signed
  unfolding sign_p2pkh_inputs
  sign_p2pkh_inputs-IsSignedFrom fuel tx signed sources [] e placed =
      let same : tx ≡ signed = ok-injective (some-injective e) in
      subst (IsSignedFrom tx []) same (refl, SameLayout-refl tx.inputs, λ after. refl)
  sign_p2pkh_inputs-IsSignedFrom fuel tx signed sources ((idx, t) ∷ rest) e (here, placed) =
      let step : Bytes → Tx =
        λ sig. record tx { inputs = set_unlock tx.inputs idx (signed_unlock sig t.public_key) } in
      let go : Bytes → Outcome Tx = λ sig. sign_p2pkh_inputs x fuel (step sig) sources rest in
      let (preimage, e1) =
        preimage-eq-ok
          (sighash_preimage x tx idx (p2pkh_locking_script t.pkh) sources sighash_all_utxos_forkid)
          _ e in
      let (sig, made, e2) =
        signing-eq-ok (schnorr_sign x fuel t.private_key (double_sha256 x preimage)) go e1 in
      let (pubkey, derived, len, accepted) =
        schnorr_sign-verifies x laws fuel t.private_key (double_sha256 x preimage) sig made in
      let unlock = signed_unlock sig t.public_key in
      let layout =
        set_unlock-SameLayout tx.inputs idx unlock
          (subst (UnlockLen tx.inputs idx) (sym (unlock-length sig t.public_key len)) here) in
      let (same, layout', first) =
        sign_p2pkh_inputs-IsSignedFrom fuel (step sig) signed sources rest e2 (
          All-imp (IsPlaced tx.inputs) (IsPlaced (Tx.inputs (step sig)))
            (λ s p.
              SameLayout-UnlockLen tx.inputs (Tx.inputs (step sig)) s.0
                (length (p2pkh_placeholder s.1.public_key)) layout p)
            rest placed) in
      (
        same,
        SameLayout-trans tx.inputs (Tx.inputs (step sig)) signed.inputs layout layout',
        λ (later, after). first after ∙ set_unlock-other tx.inputs idx unlock later,
      )

-- The inputs of the top-ups, behind others, are placed for their signers.
IsPlaced-from :
    (inputs front : List Input) (idx : ℕ) (topups : List P2pkhInput)
    → inputs ≡ front ++ map topup_input topups
    → idx ≡ length front
    → All (IsPlaced inputs) (signers_from idx topups)
unfolding signers_from
IsPlaced-from inputs front idx [] e n = tt
IsPlaced-from inputs front idx (t ∷ rest) e n = (
  (topup_input t, rw (e, n) (get_elem?-append front (topup_input t) (map topup_input rest)), refl),
  IsPlaced-from inputs (front ++ (topup_input t ∷ [])) (suc idx) rest
      (e ∙ sym (append_assoc front (topup_input t ∷ []) (map topup_input rest)))
      (omega (arith, length-append front (topup_input t ∷ []), n)),
)

pub topups-IsPlaced :
    (front : List Input) (topups : List P2pkhInput)
    → All (IsPlaced (front ++ map topup_input topups)) (signers_from (length front) topups)
topups-IsPlaced front topups =
    IsPlaced-from (front ++ map topup_input topups) front (length front) topups refl refl

pub signers_from-later :
    (idx : ℕ) (topups : List P2pkhInput) → 0 < idx → All (λ s. 0 < s.0) (signers_from idx topups)
unfolding signers_from
signers_from-later idx [] h = tt
signers_from-later idx (t ∷ rest) h = (h, signers_from-later (suc idx) rest (omega arith))
