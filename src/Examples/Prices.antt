-- ===== src/Examples/Prices.antt =====
-- The prices of node/core/src/price.rs: a text with nine places, and a print.
use ticker_cash.Prelude.{
  ℕ, ◌^◌, ◌≤◌, ◌<◌, ◌≡◌, ◌≢◌, refl, [], ◌∷◌, ◌++◌, ok, err, All, arith, ◌==◌, if◌then◌else◌, inl,
  length,
}
use ticker_cash.Text.{Text, trim, trim_start, is_whitespace, split_once, trim_start_matches}
use ticker_cash.Text.Decimal.{IsDigit, decimal_from}
use ticker_cash.Price.{
  zero_price, parse_price_1e8, format_price_1e8, parse_trimmed, parse_parts, parse_checked,
  parse_digits, split_parts, first_bad, frac_loop, assemble,
}
use ticker_cash.Price.Accepts.{Spells, IsPrice, parse_price_1e8_sound, parse_price_1e8_complete}
use ticker_cash.Price.RoundTrip.{parse-format}

-- " 290.1234567890\n"
abbrev quoted : Text
quoted =
    0x20 ∷ b'2' ∷ b'9' ∷ b'0' ∷ b'.' ∷ b'1' ∷ b'2' ∷ b'3' ∷ b'4' ∷ b'5' ∷ b'6' ∷ b'7' ∷ b'8' ∷ b'9'
    ∷ 0x0a ∷ []

abbrev quoted_int : Text
quoted_int = b'2' ∷ b'9' ∷ b'0' ∷ []

abbrev quoted_frac : Text
quoted_frac = b'1' ∷ b'2' ∷ b'3' ∷ b'4' ∷ b'5' ∷ b'6' ∷ b'7' ∷ b'8' ∷ b'9' ∷ []

quoted_trimmed : trim quoted ≡ quoted_int ++ (b'.' ∷ quoted_frac)
unfolding trim trim_start is_whitespace
quoted_trimmed = refl

quoted_parsed : parse_price_1e8 quoted ≡ ok 29_012_345_679
unfolding parse_price_1e8 trim trim_start is_whitespace parse_trimmed parse_parts parse_checked
    parse_digits split_parts split_once first_bad frac_loop assemble trim_start_matches decimal_from
quoted_parsed = refl

parse_price_1e8_sound_example :
    (int_part frac_part : Text) × Spells (trim quoted) int_part frac_part
    × (int_part ++ frac_part ≢ [])
    × All IsDigit (int_part ++ frac_part)
    × IsPrice int_part frac_part 29_012_345_679
    × (0 < 29_012_345_679)
    × (29_012_345_679 ≤ 10 ^ 19)
parse_price_1e8_sound_example = parse_price_1e8_sound quoted 29_012_345_679 quoted_parsed

quoted_short : length (trim_start_matches b'0' quoted_int) ≤ 11
unfolding trim_start_matches
quoted_short = omega arith

parse_price_1e8_complete_example :
    (v : ℕ) × IsPrice quoted_int quoted_frac v
    × (parse_price_1e8 quoted ≡ (if v == 0 then err zero_price else ok v))
parse_price_1e8_complete_example =
    parse_price_1e8_complete quoted quoted_int quoted_frac (inl quoted_trimmed) (λ e. cc)
      (ground arith) (ground arith) quoted_short

parse-format_example : parse_price_1e8 (format_price_1e8 29_012_345_679) ≡ ok 29_012_345_679
parse-format_example = parse-format 29_012_345_679 (omega arith) (omega arith)
