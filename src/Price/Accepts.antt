-- ===== src/Price/Accepts.antt =====
-- What the parser accepts, and the value that it returns.
use native.Mathlib.Nat.{pow-le-pow_right}
use ticker_cash.Prelude.{
  ok, err, ℕ, ◌^◌, ◌≤◌, ◌<◌, ◌≡◌, ◌≢◌, refl, sym, ◌∙◌, subst, false, Option, none, some, [], ◌∷◌,
  ◌++◌, length, ◌⊎◌, ◌==◌, ltb, if◌then◌else◌, arith, All, All-append, Option-cases, le_or_lt,
  lt→ltb, inl, inr,
}
use ticker_cash.Text.{Text, trim, trim_start_matches, split_once}
use ticker_cash.Text.Laws.{
  Lacks, IsSplit, split_once-IsSplit, split_once-append, split_once-Lacks, Lacks-of_digits,
  decimal_from-trim_start_matches,
}
use ticker_cash.Text.Decimal.{IsDigit, decimal_from, decimal_from-lt}
use ticker_cash.Price.{
  zero_price, too_large, bad_char, split_parts, first_bad, parse_digits, parse_checked, parse_parts,
  parse_trimmed, parse_price_1e8,
}
use ticker_cash.Price.Rounding.{Rounds, assemble-Rounds}

-- The text is the two parts with a dot between them, or the first part alone.
abbrev pub Spells : Text → Text → Text → Type 0
Spells s int_part frac_part =
    (s ≡ int_part ++ (b'.' ∷ frac_part)) ⊎ ((s ≡ int_part) × (frac_part ≡ []))

-- `v` is the number that the digits spell, in units of 1e-8 and rounded half up.
abbrev pub IsPrice : Text → Text → ℕ → Type 0
IsPrice int_part frac_part v =
    Rounds 8 (decimal_from 0 (int_part ++ frac_part)) (length frac_part) v

split_parts-Spells : (s : Text) → Spells s (split_parts s).0 (split_parts s).1
unfolding split_parts
split_parts-Spells s = go (split_once b'.' s) (split_once-IsSplit b'.' s)
  where
    go :
        (o : Option (Text × Text))
        → IsSplit b'.' s o
        → let p : Text × Text = elim o [ some (i, f) ↦ (i, f) | none ↦ (s, []) ] in Spells s p.0 p.1
    go none h = inr (refl, refl)
    go (some (i, f)) h = inl h.0

first_bad-none : (s : Text) → first_bad s ≡ none → All IsDigit s
unfolding first_bad
first_bad-none [] e = tt
first_bad-none (c ∷ s) e = ground (arith, first_bad-none s)

first_bad_digits : (s : Text) → All IsDigit s → first_bad s ≡ none
unfolding first_bad
first_bad_digits [] h = refl
first_bad_digits (c ∷ s) (hc, hs) = ground (arith, first_bad_digits s hs)

All-left : (s t : Text) → All IsDigit (s ++ t) → All IsDigit s × All IsDigit t
All-left [] t h = (tt, h)
All-left (c ∷ s) t (hc, h) = let (a, b) = All-left s t h in ((hc, a), b)

trimmed_digits : (s : Text) → All IsDigit s → All IsDigit (trim_start_matches b'0' s)
unfolding trim_start_matches
trimmed_digits [] h = tt
trimmed_digits (c ∷ s) (hc, hs) = ground (arith, trimmed_digits s hs)

-- Eleven digits behind the leading zeros spell a number below 10 ^ 11.
short_bound :
    (s : Text)
    → All IsDigit s
    → length (trim_start_matches b'0' s) ≤ 11
    → decimal_from 0 s < 10 ^ 11
short_bound s h short =
    let t = trim_start_matches b'0' s in
    omega (
      arith,
      decimal_from-trim_start_matches s,
      decimal_from-lt t (trimmed_digits s h),
      pow-le-pow_right {n = 10} (omega arith) {i = length t} {j = 11} short,
    )

-- Digits whose integer part is short enough give the rounded value, and an error only at zero.
parse_digits_short :
    (i f : Text)
    → All IsDigit i
    → All IsDigit f
    → length (trim_start_matches b'0' i) ≤ 11
    → (v : ℕ) × IsPrice i f v
      × (v ≤ 10 ^ 19)
      × (parse_digits i f ≡ (if v == 0 then err zero_price else ok v))
unfolding parse_digits
parse_digits_short i f hi hf short =
    let (v, e, rounds, fits) = assemble-Rounds i f hf (short_bound i hi short) in
    let fits_int : ltb 11 (length (trim_start_matches b'0' i)) ≡ false = ground arith in
    (v, rounds, fits, rw (fits_int, decimal_from-trim_start_matches i, e))

parse_digits_long :
    (i f : Text) → 11 < length (trim_start_matches b'0' i) → parse_digits i f ≡ err too_large
unfolding parse_digits
parse_digits_long i f long = rw (lt→ltb _ _ long)

nonzero_ok : (w v : ℕ) → (if w == 0 then err zero_price else ok w) ≡ ok v → (w ≡ v) × (0 < v)
nonzero_ok w v e = ground arith

parse_digits_sound :
    (i f : Text) (v : ℕ)
    → All IsDigit i
    → All IsDigit f
    → parse_digits i f ≡ ok v
    → IsPrice i f v × (0 < v) × (v ≤ 10 ^ 19)
parse_digits_sound i f v hi hf e = elim (le_or_lt (length (trim_start_matches b'0' i)) 11) [
  | inl short ↦
      let (w, price, fits, run) = parse_digits_short i f hi hf short in
      let (same, positive) = nonzero_ok w v (sym run ∙ e) in
      (subst (λ x. IsPrice i f x) same price, positive, omega arith)
  | inr long ↦ absurd (cc (parse_digits_long i f long, e))
]

parse_checked_digits : (i f : Text) → All IsDigit (i ++ f) → parse_checked i f ≡ parse_digits i f
unfolding parse_checked
parse_checked_digits i f h = rw (first_bad_digits (i ++ f) h, parse_checked)

parse_checked_bad :
    (i f : Text) (c : ℕ) → first_bad (i ++ f) ≡ some c → parse_checked i f ≡ err (bad_char c)
unfolding parse_checked
parse_checked_bad i f c h = rw (h, parse_checked)

parse_checked_ok :
    (i f : Text) (v : ℕ)
    → parse_checked i f ≡ ok v
    → All IsDigit (i ++ f) × (parse_digits i f ≡ ok v)
parse_checked_ok i f v e = elim (Option-cases (first_bad (i ++ f))) [
  | inl clean ↦
      let digits = first_bad-none (i ++ f) clean in
      (digits, sym (parse_checked_digits i f digits) ∙ e)
  | inr (c, bad) ↦ absurd (cc (parse_checked_bad i f c bad, e))
]

-- Parts that are not both empty are scanned.
parse_parts_ok :
    (i f : Text) (v : ℕ) → parse_parts i f ≡ ok v → (i ++ f ≢ []) × (parse_checked i f ≡ ok v)
unfolding parse_parts
parse_parts_ok [] [] v e = cc
parse_parts_ok [] (c ∷ f) v e = (λ p. cc, e)
parse_parts_ok (c ∷ i) f v e = (λ p. cc, e)

parse_parts_some : (i f : Text) → i ++ f ≢ [] → parse_parts i f ≡ parse_checked i f
unfolding parse_parts
parse_parts_some [] [] h = absurd (h refl)
parse_parts_some [] (c ∷ f) h = refl
parse_parts_some (c ∷ i) f h = refl

parse_trimmed_ok :
    (s : Text) (v : ℕ)
    → parse_trimmed s ≡ ok v
    → parse_parts (split_parts s).0 (split_parts s).1 ≡ ok v
unfolding parse_trimmed
parse_trimmed_ok [] v e = cc
parse_trimmed_ok (c ∷ s) v e = e

split_parts_spelled : (s i f : Text) → Spells s i f → Lacks b'.' i → split_parts s ≡ (i, f)
unfolding split_parts
split_parts_spelled s i f (inl e) lacks = rw (e, split_once-append b'.' i f lacks, split_parts)
split_parts_spelled s i f (inr (e, none_left)) lacks =
    rw (e, split_once-Lacks b'.' i lacks, none_left, split_parts) (rw e)

empty_spelled : (i f : Text) → Spells [] i f → i ++ f ≡ []
empty_spelled [] f (inl e) = absurd (cc e)
empty_spelled (c ∷ i) f (inl e) = absurd (cc e)
empty_spelled [] f (inr (e, none_left)) = none_left
empty_spelled (c ∷ i) f (inr (e, none_left)) = absurd (cc e)

parse_trimmed_spelled :
    (s i f : Text) → Spells s i f → i ++ f ≢ [] → Lacks b'.' i → parse_trimmed s ≡ parse_parts i f
unfolding parse_trimmed
parse_trimmed_spelled [] i f spells some_digit lacks =
    absurd (some_digit (empty_spelled i f spells))
parse_trimmed_spelled (c ∷ s) i f spells some_digit lacks =
    rw (split_parts_spelled (c ∷ s) i f spells lacks)

-- A price is accepted only where the trimmed text is digits, with at most one dot among them and
-- at least one digit; the result is then their value in units of 1e-8, a half rounded up, and it
-- lies between 1 and 10 ^ 19, so that it fits in 64 bits.
pub parse_price_1e8_sound :
    (s : Text) (v : ℕ)
    → parse_price_1e8 s ≡ ok v
    → (int_part frac_part : Text) × Spells (trim s) int_part frac_part
      × (int_part ++ frac_part ≢ [])
      × All IsDigit (int_part ++ frac_part)
      × IsPrice int_part frac_part v
      × (0 < v)
      × (v ≤ 10 ^ 19)
unfolding parse_price_1e8
parse_price_1e8_sound s v e =
    let i = (split_parts (trim s)).0 in
    let f = (split_parts (trim s)).1 in
    let (some_digit, checked) = parse_parts_ok i f v (parse_trimmed_ok (trim s) v e) in
    let (digits, run) = parse_checked_ok i f v checked in
    let (hi, hf) = All-left i f digits in
    let (price, positive, fits) = parse_digits_sound i f v hi hf run in
    (i, f, split_parts-Spells (trim s), some_digit, digits, price, positive, fits)

-- A trimmed text of digits with at most one dot among them, at least one digit, and at most eleven
-- digits before the dot behind the leading zeros, is read as its value in units of 1e-8, a half
-- rounded up; only where that is zero is the answer an error.
pub parse_price_1e8_complete :
    (s int_part frac_part : Text)
    → Spells (trim s) int_part frac_part
    → int_part ++ frac_part ≢ []
    → All IsDigit int_part
    → All IsDigit frac_part
    → length (trim_start_matches b'0' int_part) ≤ 11
    → (v : ℕ) × IsPrice int_part frac_part v
      × (parse_price_1e8 s ≡ (if v == 0 then err zero_price else ok v))
unfolding parse_price_1e8
parse_price_1e8_complete s i f spells some_digit hi hf short =
    let (v, price, _, run) = parse_digits_short i f hi hf short in
    (
      v,
      price,
      parse_trimmed_spelled (trim s) i f spells some_digit (Lacks-of_digits i hi)
          ∙ parse_parts_some i f some_digit
          ∙ parse_checked_digits i f (All-append IsDigit i f hi hf)
          ∙ run,
    )
