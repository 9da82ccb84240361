-- ===== src/Tx/Script.antt =====
-- node/core/src/tx/script.rs: pushes and the few opcodes that the builders emit. What the source
-- pushes on a buffer is returned.
pub mod Push
pub mod Number
use Prim.Native.Nat.{bit_and, bit_or}
use ticker_cash.Prelude.{
  ℕ, zero, suc, ◌+◌, ◌-◌, ◌/◌, ◌%◌, ◌^◌, Bool, true, false, ◌&&◌, List, [], ◌∷◌, ◌++◌, length, ◌==◌,
  leb, if◌then◌else◌,
}
use ticker_cash.Bytes.{Bytes, le_bytes}
use ticker_cash.External.{External}
use ticker_cash.Crypto.Hash.{double_sha256}

abbrev pub op_0 : ℕ
op_0 = 0x00

abbrev pub op_pushdata1 : ℕ
op_pushdata1 = 0x4c

abbrev pub op_pushdata2 : ℕ
op_pushdata2 = 0x4d

abbrev pub op_pushdata4 : ℕ
op_pushdata4 = 0x4e

abbrev pub op_1negate : ℕ
op_1negate = 0x4f

abbrev pub op_1 : ℕ
op_1 = 0x51

abbrev pub op_dup : ℕ
op_dup = 0x76

abbrev pub op_equal : ℕ
op_equal = 0x87

abbrev pub op_equalverify : ℕ
op_equalverify = 0x88

abbrev pub op_hash160 : ℕ
op_hash160 = 0xa9

abbrev pub op_hash256 : ℕ
op_hash256 = 0xaa

abbrev pub op_checksig : ℕ
op_checksig = 0xac

-- The push by a length prefix.
unfoldable pub push_sized : Bytes → Bytes
push_sized data' =
    let len = length data' in
    (if leb len 75
      then len ∷ []
      else if leb len 0xff
      then op_pushdata1 ∷ len ∷ []
      else if leb len 0xffff
      then op_pushdata2 ∷ le_bytes 2 len
      else op_pushdata4 ∷ le_bytes 4 len)
    ++ data'

unfoldable pub push_data : Bytes → Bytes
push_data [] = op_0 ∷ []
push_data (b ∷ []) =
    if b == 0x81
    then op_1negate ∷ []
    else if leb 0x01 b && leb b 0x10
    then (op_1 + (b - 1)) ∷ []
    else push_sized (b ∷ [])
push_data (b ∷ c ∷ rest) = push_sized (b ∷ c ∷ rest)

-- An i64: its sign and its magnitude, as `n < 0` and `n.unsigned_abs()` give them.
pub record I64 : Type 0 where
  pub negative : Bool
  pub unsigned_abs : ℕ

-- The loop over the magnitude, with `abs & 0xff` as the remainder; a u64 has eight bytes, so eight rounds are enough.
unfoldable pub abs_bytes : ℕ → ℕ → Bytes
abs_bytes zero abs = []
abs_bytes (suc f) zero = []
abs_bytes (suc f) (suc n) = suc n % 256 ∷ abs_bytes f (suc n / 256)

-- The sign goes to the top bit of the last byte, or to a byte of its own where that bit is taken.
unfoldable pub put_sign : Bool → Bytes → Bytes
put_sign negative [] = []
put_sign negative (b ∷ []) =
    if bit_and b 0x80 == 0
    then (if negative then bit_or b 0x80 else b) ∷ []
    else b ∷ (if negative then 0x80 else 0x00) ∷ []
put_sign negative (b ∷ c ∷ rest) = b ∷ put_sign negative (c ∷ rest)

unfoldable pub push_int : I64 → Bytes
push_int n =
    if n.unsigned_abs == 0
    then op_0 ∷ []
    else push_data (put_sign n.negative (abs_bytes 8 n.unsigned_abs))

unfoldable pub p2pkh_locking_script : Bytes → Bytes
p2pkh_locking_script pkh = (op_dup ∷ op_hash160 ∷ 20 ∷ pkh) ++ (op_equalverify ∷ op_checksig ∷ [])

unfoldable pub p2sh32_locking_script : External → Bytes → Bytes
p2sh32_locking_script x redeem = (op_hash256 ∷ 32 ∷ double_sha256 x redeem) ++ (op_equal ∷ [])
