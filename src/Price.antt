-- ===== src/Price.antt =====
-- node/core/src/price.rs: exact decimal parsing of exchange prices into units of 1e-8 USD.
pub mod Rounding
pub mod Accepts
pub mod RoundTrip
use ticker_cash.Prelude.{
  Result, ok, err, ℕ, zero, suc, ◌+◌, ◌-◌, ◌*◌, ◌/◌, ◌%◌, ◌^◌, Bool, true, false, Option, none,
  some, [], ◌∷◌, ◌++◌, length, min, ◌==◌, leb, ltb, if◌then◌else◌,
}
use ticker_cash.Bytes.{u64_mod}
use ticker_cash.Text.{Text, is_ascii_digit, trim, trim_start_matches, split_once}
use ticker_cash.Text.Decimal.{decimal_from, padded, display_u64}

pub data PriceError : Type 0 where
  empty no_digits too_large zero_price : PriceError
  bad_char : ℕ → PriceError

-- `Result<u64, PriceError>`
abbrev pub Parsed : Type 0
Parsed = Result PriceError ℕ

abbrev pub scale : ℕ
scale = 100_000_000

-- The parts round the first dot.
unfoldable pub split_parts : Text → Text × Text
split_parts s = elim (split_once b'.' s) [ some (i, f) ↦ (i, f) | none ↦ (s, []) ]

-- The first character that is no digit.
unfoldable pub first_bad : Text → Option ℕ
first_bad [] = none
first_bad (c ∷ s) = if is_ascii_digit c then first_bad s else some c

-- The loop over the fraction: the digit number, `frac_val` and `round_up`.
unfoldable pub frac_loop : ℕ → ℕ → Bool → Text → ℕ × Bool
frac_loop i frac_val round_up [] = (frac_val, round_up)
frac_loop i frac_val round_up (c ∷ s) =
    let d = c - b'0' in
    frac_loop (i + 1) (if ltb i 8 then frac_val * 10 + d else frac_val)
      (if i == 8 then leb 5 d else round_up) s

-- `int_val * SCALE + frac_val` and the rounding, in u64.
unfoldable pub assemble : ℕ → ℕ × Bool → ℕ → ℕ
assemble int_val (frac_val, round_up) taken =
    let value = (int_val * scale + frac_val * 10 ^ (8 - taken)) % u64_mod in
    if round_up then (value + 1) % u64_mod else value

unfoldable pub parse_digits : Text → Text → Parsed
unfolding frac_loop assemble
parse_digits int_part frac_part =
    let int_digits = trim_start_matches b'0' int_part in
    let int_val = decimal_from 0 int_digits in
    let value = assemble int_val (frac_loop 0 0 false frac_part) (min (length frac_part) 8) in
    if ltb 11 (length int_digits)
    then err too_large
    else if value == 0
    then err zero_price
    else ok value

-- The scan for a bad character, and the reading of the digits.
unfoldable pub parse_checked : Text → Text → Parsed
unfolding first_bad
parse_checked int_part frac_part = elim (first_bad (int_part ++ frac_part)) [
  | some c ↦ err (bad_char c)
  | none ↦ parse_digits int_part frac_part
]

unfoldable pub parse_parts : Text → Text → Parsed
parse_parts [] [] = err no_digits
parse_parts int_part frac_part = parse_checked int_part frac_part

unfoldable pub parse_trimmed : Text → Parsed
unfolding split_parts
parse_trimmed [] = err empty
parse_trimmed (c ∷ s) = let (i, f) = split_parts (c ∷ s) in parse_parts i f

unfoldable pub parse_price_1e8 : Text → Parsed
unfolding parse_trimmed
parse_price_1e8 s = parse_trimmed (trim s)

unfoldable pub format_price_1e8 : ℕ → Text
format_price_1e8 v = display_u64 (v / scale) ++ (b'.' ∷ padded 8 (v % scale))
