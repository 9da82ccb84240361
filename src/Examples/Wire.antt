-- ===== src/Examples/Wire.antt =====
-- The wire format of node/core/src/tx at a small transaction.
use ticker_cash.Prelude.{List, ◌↔◌, ◌%◌, map, ok}
use ticker_cash.Text.{Text, split_once}
use ticker_cash.Tx.Sighash.{SpentOutput, sighash_preimage}
use ticker_cash.Tx.Build.Sign.{set_unlock}
use ticker_cash.Tx.Build.Sign.Preimage.{sighash_preimage-set_unlock}
use ticker_cash.Tx.Cashaddr.{
  mainnet, read_symbols, encode_p2pkh_cashaddr, encode_cashaddr, decode_p2pkh_cashaddr,
  read_payload, position, polymod, polymod_from, mix, checksum_symbols, convert_bits, convert_from,
  emit, size_code, as_str,
}
use ticker_cash.Tx.Cashaddr.Accepts.{read_symbols-low_bytes}
use ticker_cash.Examples.Toy.{toy}
use ticker_cash.Prelude.{◌≤◌, ◌≡◌, refl, true, none, some, [], ◌∷◌, ◌++◌, length, replicate, arith}
use ticker_cash.Bytes.{Bytes, bytes_eq}
use ticker_cash.Tx.Types.{Input, TokenPrefix, Output, Tx}
use ticker_cash.Tx.Encode.{
  encode_tx, output_script_bytes, encode_token_prefix, token_bits, encode_varint,
}
use ticker_cash.Tx.Reader.{read_tx}
use ticker_cash.Tx.RoundTrip.{IsInput, IsToken, IsOutput, IsTx, read-encode_tx}
use ticker_cash.Tx.Script.{I64, push_int}
use ticker_cash.Tx.Script.Push.{read_push}
use ticker_cash.Tx.Script.Number.{script_number, read-push_int}

abbrev coin : Input
coin = record {
  prev = record { txid_be = replicate 32 7; vout = 1 };
  unlock_script = 0x51 ∷ [];
  sequence = 0xffff_fffe;
}

abbrev head_token : TokenPrefix
head_token = record {
  category_le = replicate 32 9;
  capability = 2;
  commitment = 1 ∷ 2 ∷ [];
  amount = 0;
}

abbrev head_out : Output
head_out = record { value = 50_000; locking_script = 0xaa ∷ 0x87 ∷ []; token = some head_token }

abbrev change_out : Output
change_out = record { value = 600; locking_script = 0x76 ∷ []; token = none }

abbrev small_tx : Tx
small_tx = record {
  version = 2;
  inputs = coin ∷ [];
  outputs = head_out ∷ change_out ∷ [];
  locktime = 500_000_000;
}

coin-IsInput : IsInput coin
coin-IsInput = record {
  txid_len = refl;
  vout_u32 = omega arith;
  script_len = omega arith;
  sequence_u32 = omega arith;
}

head_token-IsToken : IsToken head_token
head_token-IsToken = record {
  category_len = refl;
  capability_known = omega arith;
  commitment_len = omega arith;
  amount_u64 = omega arith;
}

head_out-IsOutput : IsOutput head_out
unfolding output_script_bytes encode_token_prefix encode_varint token_bits
head_out-IsOutput = record {
  value_u64 = omega arith;
  script_len = omega arith;
  script = head_token-IsToken;
}

change_out-IsOutput : IsOutput change_out
unfolding output_script_bytes
change_out-IsOutput = record {
  value_u64 = omega arith;
  script_len = omega arith;
  script = omega arith;
}

small_tx-IsTx : IsTx small_tx
small_tx-IsTx = record {
  version_u32 = omega arith;
  locktime_u32 = omega arith;
  inputs_len = omega arith;
  outputs_len = omega arith;
  inputs_ok = (coin-IsInput, tt);
  outputs_ok = (head_out-IsOutput, (change_out-IsOutput, tt));
}

read-encode_tx_example : read_tx (encode_tx small_tx ++ (1 ∷ 2 ∷ [])) ≡ some (small_tx, 1 ∷ 2 ∷ [])
read-encode_tx_example = read-encode_tx small_tx (1 ∷ 2 ∷ []) small_tx-IsTx

abbrev minus_300 : I64
minus_300 = record { negative = true; unsigned_abs = 300 }

read-push_int_example :
    (bs : Bytes) × (read_push (push_int minus_300 ++ (0x87 ∷ [])) ≡ some (bs, 0x87 ∷ []))
    × (script_number bs ≡ (true, 300))
    × (length bs ≤ 9)
read-push_int_example =
    read-push_int minus_300 (0x87 ∷ [])
      (record { in_range = omega arith; zero_sign = λ e. absurd (omega arith) })

abbrev spent : List SpentOutput
spent = record { value = 1_000; locking_script = 0x76 ∷ []; token = none } ∷ []

-- The unlocking script of one input is written, and the preimage at it is the same.
sighash_preimage-set_unlock_example :
    sighash_preimage toy
      (record small_tx { inputs = set_unlock small_tx.inputs 0 (1 ∷ 2 ∷ []) })
      0
      (0x76 ∷ [])
      spent
      0x61
    ≡ sighash_preimage toy small_tx 0 (0x76 ∷ []) spent 0x61
sighash_preimage-set_unlock_example =
    sighash_preimage-set_unlock toy (0x76 ∷ []) spent 0x61 small_tx 0 0 (1 ∷ 2 ∷ [])

-- Two letters beyond ASCII, read as "qp".
abbrev beyond_ascii : Text
beyond_ascii = 0x171 ∷ 0x170 ∷ []

abbrev two_symbols : Bytes
two_symbols = 0 ∷ 1 ∷ []

read_symbols-low_bytes_example :
    (read_symbols beyond_ascii ≡ ok two_symbols)
    ↔ (read_symbols (map (λ c. c % 256) beyond_ascii) ≡ ok two_symbols)
read_symbols-low_bytes_example = read_symbols-low_bytes beyond_ascii two_symbols

-- A key's hash is read back from its address.
abbrev key_hash : Bytes
key_hash = replicate 10 0x5a ++ replicate 10 0xc3

key_hash_read : decode_p2pkh_cashaddr (encode_p2pkh_cashaddr key_hash mainnet) mainnet ≡ ok key_hash
unfolding decode_p2pkh_cashaddr encode_p2pkh_cashaddr encode_cashaddr read_symbols read_payload
    position polymod polymod_from mix checksum_symbols convert_bits convert_from emit size_code
    as_str bytes_eq split_once
key_hash_read = refl
