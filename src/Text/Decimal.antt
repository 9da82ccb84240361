-- ===== src/Text/Decimal.antt =====
-- Decimal digits of Rust's standard library: `parse`, `Display` and zero padding of integers.
use native.Mathlib.Nat.{pow-suc}
use ticker_cash.Prelude.{
  ℕ, zero, suc, ◌+◌, ◌-◌, ◌*◌, ◌/◌, ◌%◌, ◌^◌, ◌≤◌, ◌<◌, ◌≡◌, refl, ◌∙◌, List, [], ◌∷◌, ◌++◌, arith,
  length, All, ltb, if◌then◌else◌,
}

abbrev pub IsDigit : ℕ → Type 0
IsDigit c = (b'0' ≤ c) × (c ≤ b'9')

-- The number that digits spell behind `n`.
unfoldable pub decimal_from : ℕ → List ℕ → ℕ
decimal_from n [] = n
decimal_from n (c ∷ s) = decimal_from (n * 10 + (c - b'0')) s

-- `{:0w}` of a number below 10 ^ w: its last `w` digits.
unfoldable pub padded : ℕ → ℕ → List ℕ
padded zero n = []
padded (suc w) n = padded w (n / 10) ++ ((b'0' + n % 10) ∷ [])

-- `Display` of an unsigned integer; a u64 has 20 digits at most.
unfoldable pub digits_fuel : ℕ → ℕ → List ℕ
digits_fuel zero n = []
digits_fuel (suc f) n =
    let front = digits_fuel f (n / 10) in (if ltb n 10 then [] else front) ++ ((b'0' + n % 10) ∷ [])

unfoldable pub display_u64 : ℕ → List ℕ
unfolding digits_fuel
display_u64 n = digits_fuel 20 n

pub decimal_from-append :
    (n : ℕ) (s t : List ℕ) → decimal_from n (s ++ t) ≡ decimal_from (decimal_from n s) t
unfolding decimal_from
decimal_from-append n [] t = refl
decimal_from-append n (c ∷ s) t = decimal_from-append (n * 10 + (c - b'0')) s t

shift_digit : (n d p t : ℕ) → (n * 10 + d) * p + t ≡ n * (p * 10) + ((0 * 10 + d) * p + t)
shift_digit n d p t = omega arith

-- Digits behind `n` shift it and add their own number.
pub decimal_from-eq : (n : ℕ) (s : List ℕ) → decimal_from n s ≡ n * 10 ^ length s + decimal_from 0 s
unfolding decimal_from
decimal_from-eq n [] = omega arith
decimal_from-eq n (c ∷ s) =
    decimal_from-eq (n * 10 + (c - b'0')) s
    ∙ shift_digit n (c - b'0') (10 ^ length s) (decimal_from 0 s)
    ∙ rw (pow-suc, decimal_from-eq (0 * 10 + (c - b'0')) s)

digit_lt : (d p t : ℕ) → d ≤ 9 → t < p → (0 * 10 + d) * p + t < p * 10
digit_lt d p t hd ht = grind arith

pub decimal_from-lt : (s : List ℕ) → All IsDigit s → decimal_from 0 s < 10 ^ length s
unfolding decimal_from
decimal_from-lt [] h = omega arith
decimal_from-lt (c ∷ s) (hc, hs) =
    rw (decimal_from-eq (0 * 10 + (c - b'0')) s, pow-suc)
      (digit_lt (c - b'0') (10 ^ length s) (decimal_from 0 s) (omega arith) (decimal_from-lt s hs))

pub decimal_from-cons :
    (n c : ℕ) (s : List ℕ)
    → decimal_from n (c ∷ s) ≡ (n * 10 + (c - b'0')) * 10 ^ length s + decimal_from 0 s
unfolding decimal_from
decimal_from-cons n c s = decimal_from-eq (n * 10 + (c - b'0')) s

pub decimal_from_step :
    (n c : ℕ) (s : List ℕ) → decimal_from n (c ∷ s) ≡ decimal_from (n * 10 + (c - b'0')) s
unfolding decimal_from
decimal_from_step n c s = refl
