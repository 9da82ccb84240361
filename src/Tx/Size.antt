-- ===== src/Tx/Size.antt =====
-- What the size of an encoded transaction does not depend on: the values of the outputs, the locktime
-- and the bytes of the unlocking scripts.
use ticker_cash.Prelude.{
  ℕ, suc, ◌+◌, ◌≡◌, refl, sym, ap, ◌∙◌, List, [], ◌∷◌, ◌++◌, length, reverse, length-append, arith,
}
use ticker_cash.Bytes.{Bytes, le_bytes}
use ticker_cash.Bytes.Laws.{length-le_bytes}
use ticker_cash.Tx.Types.{TxOutpoint, Input, Output, Tx}
use ticker_cash.Tx.Encode.{
  encode_varint, encode_input, encode_inputs, encode_output, encode_outputs, encode_tx,
  output_script_bytes,
}

-- The same coins with the same sequences, and unlocking scripts of the same lengths.
abbrev pub SameLayout : List Input → List Input → Type 0
SameLayout [] [] = Unit
SameLayout (i ∷ is) (j ∷ js) =
    ((i.prev ≡ j.prev)
      × (i.sequence ≡ j.sequence)
      × (length i.unlock_script ≡ length j.unlock_script))
    × SameLayout is js
SameLayout _ _ = ⊥

pub SameLayout-refl : (is : List Input) → SameLayout is is
SameLayout-refl [] = tt
SameLayout-refl (i ∷ is) = ((refl, refl, refl), SameLayout-refl is)

pub SameLayout-trans :
    (is js ks : List Input) → SameLayout is js → SameLayout js ks → SameLayout is ks
SameLayout-trans [] [] [] h k = tt
SameLayout-trans [] [] (_ ∷ ks) h k = absurd k
SameLayout-trans [] (j ∷ js) ks h k = absurd h
SameLayout-trans (i ∷ is) [] ks h k = absurd h
SameLayout-trans (i ∷ is) (j ∷ js) [] h k = absurd k
SameLayout-trans (i ∷ is) (j ∷ js) (k ∷ ks) ((a, b, c), h) ((d, e, f), g) =
    ((a ∙ d, b ∙ e, c ∙ f), SameLayout-trans is js ks h g)

input_size : Bytes → ℕ → ℕ
input_size txid script_len =
    length (reverse txid) + (4 + (length (encode_varint script_len) + (script_len + 4)))

input_size_lem :
    (i : Input) → length (encode_input i) ≡ input_size i.prev.txid_be (length i.unlock_script)
unfolding encode_input input_size
input_size_lem i = omega (
  arith,
  length-append (reverse i.prev.txid_be) (
      le_bytes 4 i.prev.vout
      ++ (encode_varint (length i.unlock_script) ++ (i.unlock_script ++ le_bytes 4 i.sequence))),
  length-append (le_bytes 4 i.prev.vout)
      (encode_varint (length i.unlock_script) ++ (i.unlock_script ++ le_bytes 4 i.sequence)),
  length-append (encode_varint (length i.unlock_script)) (i.unlock_script ++ le_bytes 4 i.sequence),
  length-append i.unlock_script (le_bytes 4 i.sequence),
  length-le_bytes 4 i.prev.vout,
  length-le_bytes 4 i.sequence,
)

length-encode_input :
    (i j : Input)
    → i.prev ≡ j.prev
    → length i.unlock_script ≡ length j.unlock_script
    → length (encode_input i) ≡ length (encode_input j)
length-encode_input i j prev script =
    input_size_lem i
    ∙ ap (λ prev. input_size (TxOutpoint.txid_be prev) (length i.unlock_script)) prev
    ∙ ap (input_size j.prev.txid_be) script
    ∙ sym (input_size_lem j)

pub length-encode_inputs :
    (is js : List Input) → SameLayout is js → length (encode_inputs is) ≡ length (encode_inputs js)
unfolding encode_inputs
length-encode_inputs [] [] h = refl
length-encode_inputs [] (j ∷ js) h = absurd h
length-encode_inputs (i ∷ is) [] h = absurd h
length-encode_inputs (i ∷ is) (j ∷ js) ((prev, sequence, script), h) = omega (
  arith,
  length-append (encode_input i) (encode_inputs is),
  length-append (encode_input j) (encode_inputs js),
  length-encode_input i j prev script,
  length-encode_inputs is js h,
)

pub SameLayout-length : (is js : List Input) → SameLayout is js → length is ≡ length js
SameLayout-length [] [] h = refl
SameLayout-length [] (j ∷ js) h = absurd h
SameLayout-length (i ∷ is) [] h = absurd h
SameLayout-length (i ∷ is) (j ∷ js) (c, h) = ap suc (SameLayout-length is js h)

pub length-encode_output :
    (out : Output) (value : ℕ)
    → length (encode_output (record out { value = value })) ≡ length (encode_output out)
unfolding encode_output le_bytes encode_varint output_script_bytes
length-encode_output out value =
    let rest = encode_varint (length (output_script_bytes out)) ++ output_script_bytes out in
    omega (
      arith,
      length-append (le_bytes 8 value) rest,
      length-append (le_bytes 8 out.value) rest,
      length-le_bytes 8 value,
      length-le_bytes 8 out.value,
    )

tx_size : ℕ → ℕ → ℕ → ℕ → ℕ
tx_size inputs inputs_len outputs outputs_len =
    4
    + (length (encode_varint inputs)
        + (inputs_len + (length (encode_varint outputs) + (outputs_len + 4))))

tx_size_lem :
    (t : Tx)
    → length (encode_tx t)
      ≡ tx_size
          (length t.inputs)
          (length (encode_inputs t.inputs))
          (length t.outputs)
          (length (encode_outputs t.outputs))
unfolding encode_tx tx_size
tx_size_lem t =
    let lock = le_bytes 4 t.locktime in
    let outs = encode_varint (length t.outputs) in
    let ins = encode_varint (length t.inputs) in
    omega (
      arith,
      length-append (le_bytes 4 t.version)
          (ins ++ (encode_inputs t.inputs ++ (outs ++ (encode_outputs t.outputs ++ lock)))),
      length-append ins (encode_inputs t.inputs ++ (outs ++ (encode_outputs t.outputs ++ lock))),
      length-append (encode_inputs t.inputs) (outs ++ (encode_outputs t.outputs ++ lock)),
      length-append outs (encode_outputs t.outputs ++ lock),
      length-append (encode_outputs t.outputs) lock,
      length-le_bytes 4 t.version,
      length-le_bytes 4 t.locktime,
    )

-- Two transactions of one layout, whose output lists are equally many and equally long on the wire.
pub length-encode_tx :
    (t u : Tx)
    → SameLayout t.inputs u.inputs
    → length t.outputs ≡ length u.outputs
    → length (encode_outputs t.outputs) ≡ length (encode_outputs u.outputs)
    → length (encode_tx t) ≡ length (encode_tx u)
length-encode_tx t u layout many long =
    let inputs = SameLayout-length t.inputs u.inputs layout in
    let inputs_len = length-encode_inputs t.inputs u.inputs layout in
    let t_size = tx_size_lem t in let u_size = tx_size_lem u in cc
