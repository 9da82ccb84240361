-- ===== src/Tx/Build/Sign/Preimage.antt =====
-- What a signature signs does not depend on the unlocking scripts.
use ticker_cash.Prelude.{
  ℕ, zero, suc, ◌≡◌, refl, sym, ap, ◌∙◌, Option, none, some, List, [], ◌∷◌, ◌++◌, get_elem?,
}
use ticker_cash.Bytes.{Bytes, le_bytes}
use ticker_cash.External.{External}
use ticker_cash.Tx.Types.{Input, Tx}
use ticker_cash.Tx.Sighash.{
  SpentOutput, prevout_bytes, prevouts, sequences, preimage_at, sighash_preimage,
}
use ticker_cash.Tx.Build.Sign.{set_unlock}

prevouts-set_unlock :
    (inputs : List Input) (idx : ℕ) (unlock : Bytes)
    → prevouts (set_unlock inputs idx unlock) ≡ prevouts inputs
unfolding prevouts set_unlock
prevouts-set_unlock [] idx unlock = refl
prevouts-set_unlock (i ∷ rest) zero unlock = refl
prevouts-set_unlock (i ∷ rest) (suc idx) unlock =
    ap (λ bytes. prevout_bytes i.prev ++ bytes) (prevouts-set_unlock rest idx unlock)

sequences-set_unlock :
    (inputs : List Input) (idx : ℕ) (unlock : Bytes)
    → sequences (set_unlock inputs idx unlock) ≡ sequences inputs
unfolding sequences set_unlock
sequences-set_unlock [] idx unlock = refl
sequences-set_unlock (i ∷ rest) zero unlock = refl
sequences-set_unlock (i ∷ rest) (suc idx) unlock =
    ap (λ bytes. le_bytes 4 i.sequence ++ bytes) (sequences-set_unlock rest idx unlock)

-- An input up to its unlocking script.
abbrev bare : Option Input → Option Input
bare none = none
bare (some i) = some (record i { unlock_script = [] })

get_elem?-set_unlock :
    (inputs : List Input) (idx at_index : ℕ) (unlock : Bytes)
    → bare (get_elem? (set_unlock inputs idx unlock) at_index) ≡ bare (get_elem? inputs at_index)
unfolding set_unlock
get_elem?-set_unlock [] idx at_index unlock = refl
get_elem?-set_unlock (i ∷ rest) zero zero unlock = refl
get_elem?-set_unlock (i ∷ rest) zero (suc at_index) unlock = refl
get_elem?-set_unlock (i ∷ rest) (suc idx) zero unlock = refl
get_elem?-set_unlock (i ∷ rest) (suc idx) (suc at_index) unlock =
    get_elem?-set_unlock rest idx at_index unlock

module _ (x : External) (script_code : Bytes) (sources : List SpentOutput) (sighash_type : ℕ) where
  -- The preimage at an input that is looked up, which only its bare form decides.
  abbrev preimage_of : Tx → Option Input → Option SpentOutput → Option Bytes
  preimage_of tx none spent = none
  preimage_of tx (some input) none = none
  preimage_of tx (some input) (some spent) =
      some (preimage_at x tx input spent script_code sources sighash_type)

  preimage_of-bare :
      (tx : Tx) (i : Option Input) (spent : Option SpentOutput)
      → preimage_of tx (bare i) spent ≡ preimage_of tx i spent
  unfolding preimage_at
  preimage_of-bare tx none spent = refl
  preimage_of-bare tx (some i) none = refl
  preimage_of-bare tx (some i) (some spent) = refl

  preimage_of_lem :
      (tx : Tx) (index : ℕ)
      → sighash_preimage x tx index script_code sources sighash_type
        ≡ preimage_of tx (get_elem? tx.inputs index) (get_elem? sources index)
  unfolding sighash_preimage
  preimage_of_lem tx index = go (get_elem? tx.inputs index) (get_elem? sources index)
    where
      go :
          (i : Option Input) (spent : Option SpentOutput)
          → elim i [
            | none ↦ none
            | some input ↦ elim spent [
              | none ↦ none
              | some s ↦ some (preimage_at x tx input s script_code sources sighash_type)
            ]
          ]
            ≡ preimage_of tx i spent
      go none spent = refl
      go (some i) none = refl
      go (some i) (some spent) = refl

  preimage_of-set_unlock :
      (tx : Tx) (idx : ℕ) (unlock : Bytes) (i : Option Input) (spent : Option SpentOutput)
      → preimage_of (record tx { inputs = set_unlock tx.inputs idx unlock }) i spent
        ≡ preimage_of tx i spent
  unfolding preimage_at
  preimage_of-set_unlock tx idx unlock none spent = refl
  preimage_of-set_unlock tx idx unlock (some i) none = refl
  preimage_of-set_unlock tx idx unlock (some i) (some spent) =
      rw (prevouts-set_unlock tx.inputs idx unlock, sequences-set_unlock tx.inputs idx unlock) refl

  -- Writing the unlocking script of any input changes the preimage of none, so that a signature that
  -- is made before another input is signed stays valid.
  pub sighash_preimage-set_unlock :
      (tx : Tx) (idx index : ℕ) (unlock : Bytes)
      → sighash_preimage x
          (record tx { inputs = set_unlock tx.inputs idx unlock })
          index
          script_code
          sources
          sighash_type
        ≡ sighash_preimage x tx index script_code sources sighash_type
  sighash_preimage-set_unlock tx idx index unlock =
      let signed : Tx = record tx { inputs = set_unlock tx.inputs idx unlock } in
      let spent = get_elem? sources index in
      preimage_of_lem signed index
      ∙ sym (preimage_of-bare signed (get_elem? signed.inputs index) spent)
      ∙ ap (λ i. preimage_of signed i spent) (get_elem?-set_unlock tx.inputs idx index unlock)
      ∙ preimage_of-bare signed (get_elem? tx.inputs index) spent
      ∙ preimage_of-set_unlock tx idx unlock (get_elem? tx.inputs index) spent
      ∙ sym (preimage_of_lem tx index)
