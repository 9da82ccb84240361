-- ===== src/Tx/RoundTrip.antt =====
-- The reader of the wire format takes back what the encoder writes.
use mathlib.Core.List.{reverse-reverse, reverse-append}
use ticker_cash.Prelude.{
  ℕ, zero, suc, ◌/◌, ◌%◌, ◌≤◌, ◌<◌, ◌≡◌, ◌≢◌, refl, Bool, true, false, not, Option, none, some,
  List, [], ◌∷◌, ◌++◌, reverse, length, ◌==◌, ltb, arith, ap, ◌∙◌, length-append, All, lt→ltb,
}
use ticker_cash.Bytes.{Bytes, le_bytes, u32_mod, u64_mod}
use ticker_cash.Tx.Types.{Input, TokenPrefix, Output, Tx}
use ticker_cash.Tx.Encode.{
  is_empty, commitment_bytes, amount_bytes, token_bits, encode_token_prefix, token_prefix_bytes,
  output_script_bytes, encode_input, encode_output, encode_inputs, encode_outputs, encode_tx,
}
use ticker_cash.Tx.Reader.{
  ◌>>=◌, pure, read_bytes, read_le, read_byte, read_varint, read_many, read_input, read_token,
  commitment_part, amount_part, split_script, read_output, read_tx,
}
use ticker_cash.Tx.Reads.{
  Reads, Reads-bind, Reads-pure, Reads-bytes, Reads-bytes', Reads-le, Reads-map, Reads-then,
  Reads-varint, encode_all, Reads-many,
}

-- The ranges and lengths of Rust's types.
pub record IsInput (i : Input) : Type 0 where
  pub txid_len : length i.prev.txid_be ≡ 32
  pub vout_u32 : i.prev.vout < u32_mod
  pub script_len : length i.unlock_script < u64_mod
  pub sequence_u32 : i.sequence < u32_mod

length-reverse : (bs : Bytes) → length (reverse bs) ≡ length bs
length-reverse [] = refl
length-reverse (b ∷ bs) = omega (
  arith,
  ap length (reverse-append (b ∷ []) bs),
  length-append (reverse bs) (b ∷ []),
  length-reverse bs,
)

-- The last field, and the display order of the txid restored.
Reads-sequence :
    (i : Input)
    → i.sequence < u32_mod
    → Reads
        (read_le 4 >>= λ sequence. pure (record {
          prev = record { txid_be = reverse (reverse i.prev.txid_be); vout = i.prev.vout };
          unlock_script = i.unlock_script;
          sequence = sequence;
        }))
        (le_bytes 4 i.sequence)
        i
Reads-sequence i h =
    rw (reverse-reverse i.prev.txid_be) (
      Reads-map (read_le 4) (λ n. record i { sequence = n }) _ i.sequence (Reads-le 4 i.sequence h))

Reads-input : (i : Input) → IsInput i → Reads read_input (encode_input i) i
unfolding read_input encode_input
Reads-input i h =
    let txid : Bytes = reverse i.prev.txid_be in
    Reads-bind (read_bytes 32) _ txid _ txid i
      (Reads-bytes' 32 txid (length-reverse i.prev.txid_be ∙ h.txid_len))
      (Reads-bind (read_le 4) _ _ _ i.prev.vout i (Reads-le 4 _ h.vout_u32) (
        Reads-bind read_varint _ _ _ (length i.unlock_script) i (Reads-varint _ h.script_len) (
          Reads-bind (read_bytes (length i.unlock_script)) _ _ _ i.unlock_script i
            (Reads-bytes i.unlock_script) (Reads-sequence i h.sequence_u32))))

pub record IsToken (t : TokenPrefix) : Type 0 where
  pub category_len : length t.category_le ≡ 32
  pub capability_known : t.capability ≤ 2
  pub commitment_len : length t.commitment < u64_mod
  pub amount_u64 : t.amount < u64_mod

-- The three parts of the bitfield.
token_bits_parts :
    (capability : ℕ) (c a : Bool)
    → capability ≤ 2
    → (token_bits capability c a % 16 ≡ capability)
      × ((token_bits capability c a / 64 % 2 == 1) ≡ c)
      × ((token_bits capability c a / 16 % 2 == 1) ≡ a)
unfolding token_bits
token_bits_parts zero false false h = (refl, refl, refl)
token_bits_parts zero false true h = (refl, refl, refl)
token_bits_parts zero true false h = (refl, refl, refl)
token_bits_parts zero true true h = (refl, refl, refl)
token_bits_parts (suc zero) false false h = (refl, refl, refl)
token_bits_parts (suc zero) false true h = (refl, refl, refl)
token_bits_parts (suc zero) true false h = (refl, refl, refl)
token_bits_parts (suc zero) true true h = (refl, refl, refl)
token_bits_parts (suc (suc zero)) false false h = (refl, refl, refl)
token_bits_parts (suc (suc zero)) false true h = (refl, refl, refl)
token_bits_parts (suc (suc zero)) true false h = (refl, refl, refl)
token_bits_parts (suc (suc zero)) true true h = (refl, refl, refl)
token_bits_parts (suc (suc (suc n))) c a h = absurd (omega arith)

Reads-commitment :
    (bits : ℕ) (bs : Bytes)
    → length bs < u64_mod
    → (bits / 64 % 2 == 1) ≡ not (is_empty bs)
    → Reads (commitment_part bits) (commitment_bytes bs) bs
Reads-commitment bits [] h e = rw e (Reads-pure [])
Reads-commitment bits (b ∷ bs) h e = rw e (
    Reads-bind read_varint _ _ _ (length (b ∷ bs)) (b ∷ bs) (Reads-varint _ h)
      (Reads-bytes (b ∷ bs)))

Reads-amount :
    (bits n : ℕ)
    → n < u64_mod
    → (bits / 16 % 2 == 1) ≡ ltb 0 n
    → Reads (amount_part bits) (amount_bytes n) n
Reads-amount bits zero h e = rw e (Reads-pure 0)
Reads-amount bits (suc n) h e = rw (e, lt→ltb 0 (suc n) (omega arith)) (Reads-varint (suc n) h)

Reads-capability :
    (t : TokenPrefix) (bits : ℕ)
    → t.amount < u64_mod
    → bits % 16 ≡ t.capability
    → (bits / 16 % 2 == 1) ≡ ltb 0 t.amount
    → Reads
        (amount_part bits >>= λ amount. pure (record {
          category_le = t.category_le;
          capability = bits % 16;
          commitment = t.commitment;
          amount = amount;
        }))
        (amount_bytes t.amount)
        t
Reads-capability t bits h cap flag = rw cap (
    Reads-map (amount_part bits) (λ n. record t { amount = n }) _ t.amount
      (Reads-amount bits t.amount h flag))

Reads-byte : (b : ℕ) → Reads read_byte (b ∷ []) b
unfolding read_byte
Reads-byte b = record { at = λ rest. refl }

-- The part of a token prefix that stands behind its marker.
abbrev prefix_tail : TokenPrefix → Bytes
prefix_tail t =
    t.category_le
    ++ (token_bits t.capability (not (is_empty t.commitment)) (ltb 0 t.amount)
        ∷ (commitment_bytes t.commitment ++ amount_bytes t.amount))

Reads-token : (t : TokenPrefix) → IsToken t → Reads read_token (prefix_tail t) t
unfolding read_token
Reads-token t h =
    let c = not (is_empty t.commitment) in
    let a = ltb 0 t.amount in
    let bits = token_bits t.capability c a in
    let (cap, flag_c, flag_a) = token_bits_parts t.capability c a h.capability_known in
    Reads-bind (read_bytes 32) _ t.category_le _ t.category_le t
      (Reads-bytes' 32 t.category_le h.category_len)
      (Reads-bind read_byte _ (bits ∷ []) _ bits t (Reads-byte bits) (
        Reads-bind (commitment_part bits) _ _ _ t.commitment t
          (Reads-commitment bits t.commitment h.commitment_len flag_c)
          (Reads-capability t bits h.amount_u64 cap flag_a)))

-- A locking script that stands alone does not begin with the marker, as the network's rules ask.
abbrev pub Unmarked : Bytes → Type 0
Unmarked [] = Unit {0}
Unmarked (b ∷ bs) = b ≢ 0xef

abbrev pub IsScript : Option TokenPrefix → Bytes → Type 0
IsScript none lock = Unmarked lock
IsScript (some t) lock = IsToken t

split_script-output :
    (token : Option TokenPrefix) (lock : Bytes)
    → IsScript token lock
    → split_script (token_prefix_bytes token ++ lock) ≡ some (token, lock)
unfolding split_script encode_token_prefix
split_script-output none [] h = refl
split_script-output none (b ∷ bs) h = let e : (b == 0xef) ≡ false = ground arith in rw e
split_script-output (some t) lock h = rw ((Reads-token t h).at lock)

pub record IsOutput (o : Output) : Type 0 where
  pub value_u64 : o.value < u64_mod
  pub script_len : length (output_script_bytes o) < u64_mod
  pub script : IsScript o.token o.locking_script

Reads-output : (o : Output) → IsOutput o → Reads read_output (encode_output o) o
unfolding read_output encode_output output_script_bytes
Reads-output o h =
    let script = output_script_bytes o in
    Reads-bind (read_le 8) _ _ _ o.value o (Reads-le 8 _ h.value_u64) (
      Reads-bind read_varint _ _ _ (length script) o (Reads-varint _ h.script_len) (
        Reads-then (read_bytes (length script)) _ script script o (Reads-bytes script)
          λ rest. rw (split_script-output o.token o.locking_script h.script)))

encode_inputs-eq : (is : List Input) → encode_inputs is ≡ encode_all read_input encode_input is
unfolding encode_inputs encode_all
encode_inputs-eq [] = refl
encode_inputs-eq (i ∷ is) = ap (λ t. encode_input i ++ t) (encode_inputs-eq is)

encode_outputs-eq : (os : List Output) → encode_outputs os ≡ encode_all read_output encode_output os
unfolding encode_outputs encode_all
encode_outputs-eq [] = refl
encode_outputs-eq (o ∷ os) = ap (λ t. encode_output o ++ t) (encode_outputs-eq os)

All-map :
    {A : Type 0} {P Q : A → Type 0} (xs : List A) → ((a : A) → P a → Q a) → All P xs → All Q xs
All-map [] f h = tt
All-map (x ∷ xs) f (hx, hxs) = (f x hx, All-map xs f hxs)

Reads-inputs :
    (is : List Input)
    → All IsInput is
    → Reads (read_many read_input (length is)) (encode_inputs is) is
Reads-inputs is h =
    rw (encode_inputs-eq is) (Reads-many read_input encode_input is (All-map is Reads-input h))

Reads-outputs :
    (os : List Output)
    → All IsOutput os
    → Reads (read_many read_output (length os)) (encode_outputs os) os
Reads-outputs os h =
    rw (encode_outputs-eq os) (Reads-many read_output encode_output os (All-map os Reads-output h))

pub record IsTx (tx : Tx) : Type 0 where
  pub version_u32 : tx.version < u32_mod
  pub locktime_u32 : tx.locktime < u32_mod
  pub inputs_len : length tx.inputs < u64_mod
  pub outputs_len : length tx.outputs < u64_mod
  pub inputs_ok : All IsInput tx.inputs
  pub outputs_ok : All IsOutput tx.outputs

Reads-tx : (tx : Tx) → IsTx tx → Reads read_tx (encode_tx tx) tx
unfolding read_tx encode_tx
Reads-tx tx h = Reads-bind (read_le 4) _ _ _ tx.version tx (Reads-le 4 _ h.version_u32) (
    Reads-bind read_varint _ _ _ (length tx.inputs) tx (Reads-varint _ h.inputs_len) (
      Reads-bind (read_many read_input (length tx.inputs)) _ _ _ tx.inputs tx
        (Reads-inputs tx.inputs h.inputs_ok)
        (Reads-bind read_varint _ _ _ (length tx.outputs) tx (Reads-varint _ h.outputs_len) (
          Reads-bind (read_many read_output (length tx.outputs)) _ _ _ tx.outputs tx
            (Reads-outputs tx.outputs h.outputs_ok)
            (Reads-map (read_le 4) (λ n. record tx { locktime = n }) _ tx.locktime
              (Reads-le 4 _ h.locktime_u32))))))

-- A transaction in the ranges of its types, whose locking scripts without a token do not begin with
-- the token marker, is read back from its encoding, and what follows the encoding is left.
pub read-encode_tx :
    (tx : Tx) (rest : Bytes) → IsTx tx → read_tx (encode_tx tx ++ rest) ≡ some (tx, rest)
read-encode_tx tx rest h = (Reads-tx tx h).at rest

-- Two transactions in the ranges of their types, whose locking scripts without a token do not begin
-- with the token marker, are equal if their encodings are.
encode_tx-injective : (a b : Tx) → IsTx a → IsTx b → encode_tx a ≡ encode_tx b → a ≡ b
encode_tx-injective a b ha hb e =
    cc (read-encode_tx a [] ha, read-encode_tx b [] hb, ap (λ t. read_tx (t ++ [])) e)
