-- ===== src/Text/Utf8.antt =====
-- `std::str::from_utf8`.
use mathlib.Core.Option
use ticker_cash.Prelude.{
  ℕ, zero, suc, ◌+◌, ◌-◌, ◌*◌, ◌<◌, ◌≡◌, refl, ◌&&◌, Option, none, some, [], ◌∷◌, ◌==◌, leb, ltb,
  lt→ltb, if◌then◌else◌, All,
}
use ticker_cash.Bytes.{Bytes}
use ticker_cash.Text.{Text}

-- What is known of a character behind some of its bytes: that there is none, that it is complete, or how
-- many more bytes it has behind the next one, which lies between two bounds.
pub data Read : Type 0 where
  invalid : Read
  complete : ℕ → Read
  partial : (left value lo hi : ℕ) → Read

unfoldable pub first_byte : ℕ → Read
first_byte b =
    if ltb b 0x80
    then complete b
    else if leb 0xc2 b && leb b 0xdf
    then partial 0 (b - 0xc0) 0x80 0xbf
    else if leb 0xe0 b && leb b 0xef
    then partial 1 (b - 0xe0) (if b == 0xe0 then 0xa0 else 0x80) (if b == 0xed then 0x9f else 0xbf)
    else if leb 0xf0 b && leb b 0xf4
    then partial 2 (b - 0xf0) (if b == 0xf0 then 0x90 else 0x80) (if b == 0xf4 then 0x8f else 0xbf)
    else invalid

unfoldable pub next_byte : (left value lo hi b : ℕ) → Read
next_byte zero value lo hi b =
    if leb lo b && leb b hi then complete (value * 64 + (b - 0x80)) else invalid
next_byte (suc left) value lo hi b =
    if leb lo b && leb b hi then partial left (value * 64 + (b - 0x80)) 0x80 0xbf else invalid

unfoldable pub read_from : Read → Bytes → Option Text
read_from invalid s = none
read_from (complete c) [] = some (c ∷ [])
read_from (complete c) (b ∷ s) = Option.map (◌∷◌ c) (read_from (first_byte b) s)
read_from (partial left value lo hi) [] = none
read_from (partial left value lo hi) (b ∷ s) = read_from (next_byte left value lo hi b) s

unfoldable pub from_utf8 : Bytes → Option Text
from_utf8 [] = some []
from_utf8 (b ∷ s) = read_from (first_byte b) s

first_byte_ascii : (b : ℕ) → b < 0x80 → first_byte b ≡ complete b
unfolding first_byte
first_byte_ascii b h = rw (lt→ltb b 0x80 h) refl

read_from_ascii :
    (c : ℕ) (s : Bytes) → All (λ b. b < 0x80) s → read_from (complete c) s ≡ some (c ∷ s)
unfolding read_from
read_from_ascii c [] h = refl
read_from_ascii c (b ∷ s) (hb, h) = rw (first_byte_ascii b hb, read_from_ascii b s h) refl

-- ASCII bytes are their own text.
pub from_utf8_ascii : (s : Bytes) → All (λ b. b < 0x80) s → from_utf8 s ≡ some s
unfolding from_utf8
from_utf8_ascii [] h = refl
from_utf8_ascii (b ∷ s) (hb, h) = rw (first_byte_ascii b hb, read_from_ascii b s h) refl
