-- ===== src/Tx/Cashaddr.antt =====
-- node/core/src/tx/cashaddr.rs: addresses of locking scripts.
pub mod Accepts
use Prim.Native.Nat.{bit_and, bit_or, bit_xor}
use ticker_cash.Prelude.{
  ℕ, zero, suc, ◌+◌, ◌*◌, ◌-◌, ◌/◌, ◌%◌, ◌^◌, Bool, true, false, ◌&&◌, ◌||◌, not, Option, none,
  some, List, [], ◌∷◌, ◌++◌, map, length, take, slice, get_or, replicate, ◌==◌, leb, ltb,
  if◌then◌else◌, Result, ok, err, ◌>>=◌, ◌>>◌, ok_or, refuse_if,
}
use ticker_cash.Bytes.{Bytes, bytes_eq, u32_mod}
use ticker_cash.Text.{Text, codes, split_once}

pub data AddressPrefix : Type 0 where
  mainnet chipnet : AddressPrefix

-- "bitcoincash" and "bchtest"
unfoldable pub as_str : AddressPrefix → Text
as_str mainnet = b'b' ∷ b'i' ∷ b't' ∷ b'c' ∷ b'o' ∷ b'i' ∷ b'n' ∷ b'c' ∷ b'a' ∷ b's' ∷ b'h' ∷ []
as_str chipnet = b'b' ∷ b'c' ∷ b'h' ∷ b't' ∷ b'e' ∷ b's' ∷ b't' ∷ []

-- `AddressPrefix::from_network`
unfoldable pub from_network : Text → Option AddressPrefix
from_network network =
    if bytes_eq network (codes "mainnet")
    then some mainnet
    else if bytes_eq network (codes "chipnet")
    then some chipnet
    else none

-- b"qpzry9x8gf2tvdw0s3jn54khce6mua7l"
abbrev pub alphabet : Bytes
alphabet =
    b'q' ∷ b'p' ∷ b'z' ∷ b'r' ∷ b'y' ∷ b'9' ∷ b'x' ∷ b'8' ∷ b'g' ∷ b'f' ∷ b'2' ∷ b't' ∷ b'v' ∷ b'd'
    ∷ b'w' ∷ b'0' ∷ b's' ∷ b'3' ∷ b'j' ∷ b'n' ∷ b'5' ∷ b'4' ∷ b'k' ∷ b'h' ∷ b'c' ∷ b'e' ∷ b'6'
    ∷ b'm' ∷ b'u' ∷ b'a' ∷ b'7' ∷ b'l' ∷ []

unfoldable pub size_code : ℕ → ℕ
size_code len =
    if len == 24
    then 1
    else if len == 28
    then 2
    else if len == 32
    then 3
    else if len == 40
    then 4
    else if len == 48
    then 5
    else if len == 56
    then 6
    else if len == 64
    then 7
    else 0

-- The inner loop of `convert_bits`: what it pushes, and the bits that are left. Every round takes
-- `to_bits` of at most twelve bits, so twelve rounds are enough.
unfoldable pub emit : ℕ → (to_bits acc bits : ℕ) → Bytes × ℕ
emit zero to_bits acc bits = ([], bits)
emit (suc fuel) to_bits acc bits =
    let left = bits - to_bits in
    let rest = emit fuel to_bits acc left in
    if leb to_bits bits then ((acc / 2 ^ left % 2 ^ to_bits) ∷ rest.0, rest.1) else ([], bits)

-- The loop over the data; the u32 keeps the low bits of the accumulator.
unfoldable pub convert_from : (from_bits to_bits : ℕ) → Bool → (acc bits : ℕ) → Bytes → Bytes
convert_from from_bits to_bits pad acc bits [] =
    if pad && ltb 0 bits then (acc * 2 ^ (to_bits - bits) % u32_mod % 2 ^ to_bits) ∷ [] else []
convert_from from_bits to_bits pad acc bits (v ∷ rest) =
    let acc' = bit_or (acc * 2 ^ from_bits % u32_mod) v in
    let (out, left) = emit 12 to_bits acc' (bits + from_bits) in
    out ++ convert_from from_bits to_bits pad acc' left rest

unfoldable pub convert_bits : Bytes → (from_bits to_bits : ℕ) → Bool → Bytes
convert_bits bytes from_bits to_bits pad = convert_from from_bits to_bits pad 0 0 bytes

abbrev pub generators : List ℕ
generators = 0x98_f2bc_8e61 ∷ 0x79_b76d_99e2 ∷ 0xf3_3e5f_b3c4 ∷ 0xae_2eab_e2a8 ∷ 0x1e_4f43_e470 ∷ []

-- The loop over the generators, from bit `i` of `c0` on.
unfoldable pub mix : ℕ → ℕ → List ℕ → ℕ → ℕ
mix c0 i [] c = c
mix c0 i (g ∷ rest) c = mix c0 (i + 1) rest (if c0 / 2 ^ i % 2 == 0 then c else bit_xor c g)

unfoldable pub polymod_from : ℕ → Bytes → ℕ
polymod_from c [] = c
polymod_from c (v ∷ rest) =
    let c0 = c / 2 ^ 35 % 256 in
    polymod_from (mix c0 0 generators (bit_xor (c % 2 ^ 35 * 32) v)) rest

unfoldable pub polymod : Bytes → ℕ
polymod values = polymod_from 1 values

-- What the checksum is taken over, before the data.
abbrev pub checksum_prefix : Text → Bytes
checksum_prefix prefix = map (λ b. b % 32) prefix ++ (0 ∷ [])

-- The eight symbols of the checksum, from bit 5 i on downwards.
unfoldable pub checksum_symbols : ℕ → ℕ → Bytes
checksum_symbols checksum zero = []
checksum_symbols checksum (suc i) = (checksum / 2 ^ (i * 5) % 32) ∷ checksum_symbols checksum i

unfoldable pub encode_cashaddr : ℕ → Bytes → AddressPrefix → Text
encode_cashaddr version_byte hash prefix =
    let data5 = convert_bits (bit_or version_byte (size_code (length hash)) ∷ hash) 8 5 true in
    let checksum =
      bit_xor (polymod (checksum_prefix (as_str prefix) ++ (data5 ++ replicate 8 0))) 1 in
    as_str prefix ++ (b':' ∷ map (λ b. get_or alphabet b 0) (data5 ++ checksum_symbols checksum 8))

unfoldable pub encode_p2pkh_cashaddr : Bytes → AddressPrefix → Text
encode_p2pkh_cashaddr pkh prefix = encode_cashaddr 0x00 pkh prefix

unfoldable pub encode_p2sh32_cashaddr : Bytes → AddressPrefix → Text
encode_p2sh32_cashaddr locking_bytecode prefix =
    encode_cashaddr 0x0b (slice 2 34 locking_bytecode) prefix

abbrev pub is_p2pkh : Bytes → Bool
is_p2pkh lock =
    length lock == 25
    && (get_or lock 0 0 == 0x76
        && (get_or lock 1 0 == 0xa9
            && (get_or lock 2 0 == 20 && (get_or lock 23 0 == 0x88 && get_or lock 24 0 == 0xac))))

abbrev pub is_p2sh32 : Bytes → Bool
is_p2sh32 lock =
    length lock == 35
    && (get_or lock 0 0 == 0xaa && (get_or lock 1 0 == 32 && get_or lock 34 0 == 0x87))

unfoldable pub encode_lock_cashaddr : Bytes → AddressPrefix → Option Text
encode_lock_cashaddr lock prefix =
    if is_p2pkh lock
    then some (encode_p2pkh_cashaddr (slice 3 23 lock) prefix)
    else if is_p2sh32 lock
    then some (encode_p2sh32_cashaddr lock prefix)
    else if leb 1 (length lock) && leb (length lock) 201
    then some (encode_cashaddr 0x10 lock prefix)
    else none

pub data CashAddrDecodeError : Type 0 where
  missing_prefix : Text → CashAddrDecodeError
  wrong_prefix : Text → Text → CashAddrDecodeError
  invalid_char : ℕ → CashAddrDecodeError
  too_short bad_checksum : CashAddrDecodeError
  not_p2pkh : ℕ → CashAddrDecodeError

-- `position(|&b| b == c)`, from index `i` on.
unfoldable pub position : ℕ → Bytes → ℕ → Option ℕ
position c [] i = none
position c (b ∷ rest) i = let later = position c rest (i + 1) in if b == c then some i else later

-- The loop over the characters; `c as u8` keeps the low byte of a character.
unfoldable pub read_symbols : Text → Result CashAddrDecodeError Bytes
read_symbols [] = ok []
read_symbols (c ∷ rest) = do
  pos ← ok_or (position (c % 256) alphabet 0) (invalid_char c)
  data5 ← read_symbols rest
  ok (pos ∷ data5)

-- Behind the symbols: the checksum, the version and the hash.
unfoldable pub read_payload : Text → Bytes → Result CashAddrDecodeError Bytes
read_payload prefix data5 = do
  refuse_if (ltb (length data5) 8) too_short
  refuse_if (not (polymod (checksum_prefix prefix ++ data5) == 1)) bad_checksum
  let payload8 = convert_bits (take (length data5 - 8) data5) 5 8 false
  refuse_if (ltb (length payload8) 21) too_short
  let version = get_or payload8 0 0
  refuse_if (not (version == 0x00) && not (version == 0x10)) (not_p2pkh version)
  ok (slice 1 21 payload8)

unfoldable pub decode_p2pkh_cashaddr : Text → AddressPrefix → Result CashAddrDecodeError Bytes
decode_p2pkh_cashaddr addr expected = do
  parts ← ok_or (split_once b':' addr) (missing_prefix addr)
  refuse_if (not (bytes_eq parts.0 (as_str expected))) (wrong_prefix parts.0 (as_str expected))
  data5 ← read_symbols parts.1
  read_payload parts.0 data5
