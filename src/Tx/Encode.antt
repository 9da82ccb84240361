-- ===== src/Tx/Encode.antt =====
-- node/core/src/tx/encode.rs: the wire format. What the source pushes on a buffer is returned here
-- and joined by the caller in the same order.
use Prim.Native.Nat.{bit_and, bit_or}
use ticker_cash.Prelude.{
  ℕ, Bool, true, false, ◌||◌, not, Option, none, some, List, [], ◌∷◌, ◌++◌, reverse, length, ◌==◌,
  leb, ltb, if◌then◌else◌,
}
use ticker_cash.Bytes.{Bytes, le_bytes}
use ticker_cash.External.{External}
use ticker_cash.Crypto.Hash.{double_sha256}
use ticker_cash.Tx.Types.{Input, TokenPrefix, Output, Tx}

abbrev pub token_prefix_marker : ℕ
token_prefix_marker = 0xef

abbrev pub has_amount_bit : ℕ
has_amount_bit = 0x10

abbrev pub has_nft_bit : ℕ
has_nft_bit = 0x20

abbrev pub has_commitment_length_bit : ℕ
has_commitment_length_bit = 0x40

abbrev pub is_empty : Bytes → Bool
is_empty [] = true
is_empty (b ∷ bs) = false

unfoldable pub encode_varint : ℕ → Bytes
encode_varint n =
    if ltb n 0xfd
    then n ∷ []
    else if leb n 0xffff
    then 0xfd ∷ le_bytes 2 n
    else if leb n 0xffff_ffff
    then 0xfe ∷ le_bytes 4 n
    else 0xff ∷ le_bytes 8 n

-- The bitfield that the source collects by `|=`, from the capability and its two tests.
unfoldable pub token_bits : (capability : ℕ) (has_commitment_length has_amount : Bool) → ℕ
token_bits capability has_commitment_length has_amount =
    let has_nft = not (capability == 0) || has_commitment_length in
    let bits = if has_nft then bit_or has_nft_bit (bit_and capability 0x0f) else 0 in
    let bits' = if has_commitment_length then bit_or bits has_commitment_length_bit else bits in
    if has_amount then bit_or bits' has_amount_bit else bits'

abbrev pub commitment_bytes : Bytes → Bytes
commitment_bytes commitment =
    if not (is_empty commitment) then encode_varint (length commitment) ++ commitment else []

abbrev pub amount_bytes : ℕ → Bytes
amount_bytes amount = if ltb 0 amount then encode_varint amount else []

unfoldable pub encode_token_prefix : TokenPrefix → Bytes
encode_token_prefix token =
    let has_commitment_length = not (is_empty token.commitment) in
    token_prefix_marker
    ∷ (token.category_le
        ++ (token_bits token.capability has_commitment_length (ltb 0 token.amount)
            ∷ (commitment_bytes token.commitment ++ amount_bytes token.amount)))

abbrev pub token_prefix_bytes : Option TokenPrefix → Bytes
token_prefix_bytes none = []
token_prefix_bytes (some token) = encode_token_prefix token

unfoldable pub output_script_bytes : Output → Bytes
output_script_bytes out = token_prefix_bytes out.token ++ out.locking_script

-- One round of the loop over the inputs.
unfoldable pub encode_input : Input → Bytes
encode_input input =
    reverse input.prev.txid_be
    ++ (le_bytes 4 input.prev.vout
        ++ (encode_varint (length input.unlock_script)
            ++ (input.unlock_script ++ le_bytes 4 input.sequence)))

-- One round of the loop over the outputs.
unfoldable pub encode_output : Output → Bytes
encode_output out =
    let script_buf = output_script_bytes out in
    le_bytes 8 out.value ++ (encode_varint (length script_buf) ++ script_buf)

unfoldable pub encode_inputs : List Input → Bytes
encode_inputs [] = []
encode_inputs (input ∷ rest) = encode_input input ++ encode_inputs rest

unfoldable pub encode_outputs : List Output → Bytes
encode_outputs [] = []
encode_outputs (out ∷ rest) = encode_output out ++ encode_outputs rest

unfoldable pub encode_tx : Tx → Bytes
encode_tx tx =
    le_bytes 4 tx.version
    ++ (encode_varint (length tx.inputs)
        ++ (encode_inputs tx.inputs
            ++ (encode_varint (length tx.outputs)
                ++ (encode_outputs tx.outputs ++ le_bytes 4 tx.locktime))))

-- Display-order txid of an encoded transaction.
unfoldable pub txid_be : External → Bytes → Bytes
txid_be x raw = reverse (double_sha256 x raw)
