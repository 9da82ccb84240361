-- ===== src/Price/RoundTrip.antt =====
-- Parsing a formatted price.
use native.Mathlib.Nat.{pow-suc}
use ticker_cash.Prelude.{
  ok, err, ℕ, zero, suc, ◌+◌, ◌*◌, ◌/◌, ◌%◌, ◌^◌, ◌≤◌, ◌<◌, ◌≡◌, ◌≢◌, refl, ap, ◌∙◌, subst, subst₂,
  false, [], ◌∷◌, ◌++◌, append_assoc, lt→ltb, le_or_lt, length, ◌==◌, ltb, if◌then◌else◌, arith,
  All, All-append, inl, inr, length-append, append_last-ne-nil,
}
use ticker_cash.Text.{Text, is_whitespace, trim, trim_start_matches}
use ticker_cash.Text.Laws.{trim_solid}
use ticker_cash.Text.Decimal.{
  IsDigit, decimal_from, padded, digits_fuel, display_u64, decimal_from-append,
}
use ticker_cash.Price.{scale, zero_price, format_price_1e8, parse_price_1e8}
use ticker_cash.Price.Rounding.{Rounds}
use ticker_cash.Price.Accepts.{parse_price_1e8_complete}

padded-IsDigit : (w n : ℕ) → All IsDigit (padded w n)
unfolding padded
padded-IsDigit zero n = tt
padded-IsDigit (suc w) n =
    All-append IsDigit (padded w (n / 10)) _ (padded-IsDigit w (n / 10)) (omega arith)

length-padded : (w n : ℕ) → length (padded w n) ≡ w
unfolding padded
length-padded zero n = refl
length-padded (suc w) n =
    omega
      (arith, length-append (padded w (n / 10)) ((b'0' + n % 10) ∷ []), length-padded w (n / 10))

-- A last digit.
decimal_from-last :
    (m : ℕ) (s : Text) (d : ℕ)
    → d ≤ 9
    → decimal_from m (s ++ ((b'0' + d) ∷ [])) ≡ decimal_from m s * 10 + d
unfolding decimal_from
decimal_from-last m s d h = decimal_from-append m s _ ∙ omega arith

decimal_from-padded : (w m n : ℕ) → n < 10 ^ w → decimal_from m (padded w n) ≡ m * 10 ^ w + n
unfolding padded
decimal_from-padded zero m n h = unfold decimal_from in omega arith
decimal_from-padded (suc w) m n h = omega (
  arith,
  decimal_from-last m (padded w (n / 10)) (n % 10) (omega arith),
  decimal_from-padded w m (n / 10) (omega (arith, pow-suc 10 w)),
  ap (λ (t : ℕ). m * t) (pow-suc 10 w),
)

abbrev last_digit : ℕ → Text
last_digit n = (b'0' + n % 10) ∷ []

digits_fuel_small : (f n : ℕ) → n < 10 → digits_fuel (suc f) n ≡ last_digit n
unfolding digits_fuel
digits_fuel_small f n h = rw (lt→ltb _ _ h)

digits_fuel_large :
    (f n : ℕ) → 10 ≤ n → digits_fuel (suc f) n ≡ digits_fuel f (n / 10) ++ last_digit n
unfolding digits_fuel
digits_fuel_large f n h = let e : ltb n 10 ≡ false = ground arith in rw e

-- What is printed for a number of `k` digits at most: digits, at most `k` and at least one of them,
-- that spell the number.
record IsPrint (k n : ℕ) (s : Text) : Type 0 where
  digits : All IsDigit s
  spelled : decimal_from 0 s ≡ n
  short : length s ≤ k
  nonempty : s ≢ []

IsPrint_small : (f k n : ℕ) → n < 10 → IsPrint (suc k) n (digits_fuel (suc f) n)
IsPrint_small f k n small = rw (digits_fuel_small f n small) (record {
  digits = omega arith;
  spelled = unfold decimal_from in omega arith;
  short = omega arith;
  nonempty = append_last-ne-nil [] (b'0' + n % 10);
})

IsPrint_large :
    (f k n : ℕ)
    → 10 ≤ n
    → IsPrint k (n / 10) (digits_fuel f (n / 10))
    → IsPrint (suc k) n (digits_fuel (suc f) n)
IsPrint_large f k n large h =
    let front = digits_fuel f (n / 10) in
    rw (digits_fuel_large f n large) (record {
      digits = All-append IsDigit front (last_digit n) h.digits (omega arith);
      spelled = omega (arith, decimal_from-last 0 front (n % 10) (omega arith), h.spelled);
      short = omega (arith, length-append front (last_digit n), h.short);
      nonempty = append_last-ne-nil front (b'0' + n % 10);
    })

digits_fuel-IsPrint :
    (f k n : ℕ) → k ≤ f → n < 10 ^ suc k → IsPrint (suc k) n (digits_fuel (suc f) n)
digits_fuel-IsPrint f zero n hk h = IsPrint_small f 0 n (omega arith)
digits_fuel-IsPrint zero (suc k) n hk h = absurd (omega arith)
digits_fuel-IsPrint (suc f) (suc k) n hk h = elim (le_or_lt 10 n) [
  | inr small ↦ IsPrint_small (suc f) (suc k) n small
  | inl large ↦
      IsPrint_large (suc f) (suc k) n large
        (digits_fuel-IsPrint f k (n / 10) (omega arith) (omega (arith, pow-suc 10 (suc k))))
]

display-IsPrint : (n : ℕ) → n < 10 ^ 11 → IsPrint 11 n (display_u64 n)
unfolding display_u64
display-IsPrint n h = digits_fuel-IsPrint 19 10 n (omega arith) h

digit_solid : (c : ℕ) → IsDigit c → is_whitespace c ≡ false
unfolding is_whitespace
digit_solid c h = ground arith

-- A text that begins and ends with a digit is trimmed to itself.
trim_digits :
    (s t : Text) (d : ℕ)
    → s ≢ []
    → All IsDigit s
    → IsDigit d
    → trim (s ++ (t ++ (d ∷ []))) ≡ s ++ (t ++ (d ∷ []))
trim_digits [] t d h _ _ = absurd (h refl)
trim_digits (c ∷ s) t d h (hc, hs) hd =
    subst (λ x. trim x ≡ x) (append_assoc (c ∷ s) t (d ∷ []))
      (trim_solid c (s ++ t) d (digit_solid c hc) (digit_solid d hd))

trim_start_matches_shorter : (s : Text) → length (trim_start_matches b'0' s) ≤ length s
unfolding trim_start_matches
trim_start_matches_shorter [] = omega arith
trim_start_matches_shorter (c ∷ s) = ground (arith, trim_start_matches_shorter s)

module _ (v : ℕ) (h : v < 10 ^ 19) where
  front : IsPrint 11 (v / scale) (display_u64 (v / scale))
  front = display-IsPrint (v / scale) (omega arith)

  frac : Text
  frac = padded 8 (v % scale)

  trim-format : trim (format_price_1e8 v) ≡ display_u64 (v / scale) ++ (b'.' ∷ frac)
  unfolding format_price_1e8 padded frac
  trim-format =
      trim_digits (display_u64 (v / scale)) (b'.' ∷ padded 7 (v % scale / 10))
        (b'0' + v % scale % 10) front.nonempty front.digits (omega arith)

  -- The printed digits spell `v` in units of 1e-8, and nothing is rounded.
  spelled_exactly : decimal_from 0 (display_u64 (v / scale) ++ frac) ≡ v
  unfolding frac
  spelled_exactly = omega (
    arith,
    decimal_from-append 0 (display_u64 (v / scale)) (padded 8 (v % scale)),
    front.spelled,
    decimal_from-padded 8 (decimal_from 0 (display_u64 (v / scale))) (v % scale) (omega arith),
  )

append-ne-nil : (s t : Text) → s ≢ [] → s ++ t ≢ []
append-ne-nil [] t h e = h refl
append-ne-nil (c ∷ s) t h e = cc

-- Eight places are exact.
Rounds-exact : (v u n m : ℕ) → n ≡ v → m ≡ 8 → Rounds 8 n m u → u ≡ v
Rounds-exact v u n m en em r =
    let r' : Rounds 8 v 8 u = subst₂ (λ a b. Rounds 8 a b u) en em r in omega arith

positive_ok : (u v : ℕ) → u ≡ v → 0 < v → (if u == 0 then err zero_price else ok u) ≡ ok v
positive_ok u v e h = ground arith

-- Every price from 1 to 10 ^ 19 - 1 units is read back from its print.
pub parse-format : (v : ℕ) → 0 < v → v < 10 ^ 19 → parse_price_1e8 (format_price_1e8 v) ≡ ok v
unfolding frac
parse-format v positive h =
    let f = front v h in
    let whole = display_u64 (v / scale) in
    let rest = padded 8 (v % scale) in
    let (u, price, run) =
      parse_price_1e8_complete (format_price_1e8 v) whole rest (inl (trim-format v h))
        (append-ne-nil whole rest f.nonempty) f.digits (padded-IsDigit 8 (v % scale))
        (omega (arith, trim_start_matches_shorter whole, f.short)) in
    run
    ∙ positive_ok u v
        (Rounds-exact v u _ _ (spelled_exactly v h) (length-padded 8 (v % scale)) price) positive
