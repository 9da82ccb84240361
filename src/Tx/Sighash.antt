-- ===== src/Tx/Sighash.antt =====
-- node/core/src/tx/sighash.rs: what a transaction signature signs.
use Prim.Native.Nat.{bit_and}
use ticker_cash.Prelude.{
  ℕ, ◌+◌, not, Option, none, some, List, [], ◌∷◌, ◌++◌, reverse, length, ◌==◌, if◌then◌else◌,
  get_elem?,
}
use ticker_cash.Bytes.{Bytes, le_bytes}
use ticker_cash.External.{External}
use ticker_cash.Crypto.Hash.{double_sha256}
use ticker_cash.Tx.Types.{TxOutpoint, Input, TokenPrefix, Output, Tx}
use ticker_cash.Tx.Encode.{encode_varint, token_prefix_bytes}

abbrev pub sighash_utxos : ℕ
sighash_utxos = 0x20

abbrev pub sighash_all_utxos_forkid : ℕ
sighash_all_utxos_forkid = 0x61

pub record SpentOutput : Type 0 where
  pub value : ℕ
  pub locking_script : Bytes
  pub token : Option TokenPrefix

unfoldable pub encode_spent_output : SpentOutput → Bytes
encode_spent_output spent =
    let token_bytes = token_prefix_bytes spent.token in
    le_bytes 8 spent.value
    ++ (encode_varint (length token_bytes + length spent.locking_script)
        ++ (token_bytes ++ spent.locking_script))

unfoldable pub prevout_bytes : TxOutpoint → Bytes
prevout_bytes prev = reverse prev.txid_be ++ le_bytes 4 prev.vout

-- The loops over the inputs, the spent outputs and the outputs.
unfoldable pub prevouts : List Input → Bytes
prevouts [] = []
prevouts (input ∷ rest) = prevout_bytes input.prev ++ prevouts rest

unfoldable pub sequences : List Input → Bytes
sequences [] = []
sequences (input ∷ rest) = le_bytes 4 input.sequence ++ sequences rest

unfoldable pub utxos : List SpentOutput → Bytes
utxos [] = []
utxos (spent ∷ rest) = encode_spent_output spent ++ utxos rest

unfoldable pub signed_outputs : List Output → Bytes
signed_outputs [] = []
signed_outputs (out ∷ rest) =
    let token_bytes = token_prefix_bytes out.token in
    le_bytes 8 out.value
    ++ (encode_varint (length token_bytes + length out.locking_script)
        ++ (token_bytes ++ (out.locking_script ++ signed_outputs rest)))

-- The preimage at an input and the output that it spends.
unfoldable pub preimage_at :
    External → Tx → Input → SpentOutput → Bytes → List SpentOutput → ℕ → Bytes
preimage_at x tx input spent script_code sources sighash_type =
    let with_utxos = not (bit_and sighash_type sighash_utxos == 0) in
    le_bytes 4 tx.version
    ++ (double_sha256 x (prevouts tx.inputs)
        ++ ((if with_utxos then double_sha256 x (utxos sources) else [])
            ++ (double_sha256 x (sequences tx.inputs)
                ++ (prevout_bytes input.prev
                    ++ ((if with_utxos then token_prefix_bytes spent.token else [])
                        ++ (encode_varint (length script_code)
                            ++ (script_code
                                ++ (le_bytes 8 spent.value
                                    ++ (le_bytes 4 input.sequence
                                        ++ (double_sha256 x (signed_outputs tx.outputs)
                                            ++ (le_bytes 4 tx.locktime
                                                ++ le_bytes 4 sighash_type)))))))))))

-- `none` where the source's `tx.inputs[input_index]` or `sources[input_index]` panics.
unfoldable pub sighash_preimage : External → Tx → ℕ → Bytes → List SpentOutput → ℕ → Option Bytes
sighash_preimage x tx input_index script_code sources sighash_type =
    elim (get_elem? tx.inputs input_index) [
      | none ↦ none
      | some input ↦ elim (get_elem? sources input_index) [
        | none ↦ none
        | some spent ↦ some (preimage_at x tx input spent script_code sources sighash_type)
      ]
    ]
