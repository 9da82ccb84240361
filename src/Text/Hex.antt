-- ===== src/Text/Hex.antt =====
-- Hexadecimal digits, and their reading by `from_str_radix`.
use native.Mathlib.Nat.{pow-suc}
use ticker_cash.Prelude.{
  ℕ, zero, suc, ◌+◌, ◌-◌, ◌*◌, ◌/◌, ◌%◌, ◌^◌, ◌≤◌, ◌<◌, ◌≡◌, ◌≢◌, refl, subst, ap, ◌∙◌, false,
  Option, none, some, and_then, [], ◌∷◌, ◌++◌, ltb, lt→ltb, if◌then◌else◌, arith, All, All-append,
  append_last-ne-nil, le_or_lt, Bool-cases, ◌⊎◌, inl, inr,
}
use ticker_cash.Text.{Text}
use ticker_cash.Text.Split.{to_digit, accumulate, digits_from}

unfoldable pub hex_digit : ℕ → ℕ
hex_digit d = if ltb d 10 then b'0' + d else b'a' + (d - 10)

unfoldable pub hex_fuel : ℕ → ℕ → Text
hex_fuel zero n = []
hex_fuel (suc f) n =
    let front = hex_fuel f (n / 16) in (if ltb n 16 then [] else front) ++ (hex_digit (n % 16) ∷ [])

-- `{:x}` of a number that fits in 64 bits.
unfoldable pub hex : ℕ → Text
unfolding hex_fuel
hex n = hex_fuel 16 n

abbrev pub IsHexDigit : ℕ → Type 0
IsHexDigit c = ((b'0' ≤ c) × (c ≤ b'9')) ⊎ ((b'a' ≤ c) × (c ≤ b'f'))

ltb-eq-false : (d : ℕ) → 10 ≤ d → ltb d 10 ≡ false
ltb-eq-false d h = ground arith

hex_digit-IsHexDigit : (d : ℕ) → d < 16 → IsHexDigit (hex_digit d)
unfolding hex_digit
hex_digit-IsHexDigit d h = elim (le_or_lt 10 d) [
  | inl letter ↦ rw (ltb-eq-false d letter) (inr (omega arith, omega arith))
  | inr digit ↦ rw (lt→ltb d 10 digit) (inl (omega arith, omega arith))
]

to_digit-hex_digit : (d : ℕ) → d < 16 → to_digit 16 (hex_digit d) ≡ some d
unfolding to_digit hex_digit
to_digit-hex_digit d h = ground arith

pub hex_fuel-IsHexDigit : (f n : ℕ) → All IsHexDigit (hex_fuel f n)
unfolding hex_fuel
hex_fuel-IsHexDigit zero n = tt
hex_fuel-IsHexDigit (suc f) n =
    let last = hex_digit-IsHexDigit (n % 16) (omega arith) in
    elim (Bool-cases (ltb n 16)) [
      | inl small ↦ rw small (last, tt)
      | inr large ↦ rw large (
          All-append IsHexDigit (hex_fuel f (n / 16)) _ (hex_fuel-IsHexDigit f (n / 16)) (last, tt))
    ]

pub hex-ne-nil : (n : ℕ) → hex n ≢ []
unfolding hex hex_fuel
hex-ne-nil n =
    append_last-ne-nil (if ltb n 16 then [] else hex_fuel 15 (n / 16)) (hex_digit (n % 16))

digits_from_digit :
    (radix bound n c d : ℕ) (s : Text)
    → to_digit radix c ≡ some d
    → n * radix + d < bound
    → digits_from radix bound n (c ∷ s) ≡ digits_from radix bound (n * radix + d) s
unfolding digits_from
digits_from_digit radix bound n c d s digit fits =
    rw (digit, digits_from, lt→ltb (n * radix + d) bound fits) refl

accumulate-append :
    (both front back : ℕ → Option ℕ) (radix bound n : ℕ) (o : Option ℕ)
    → ((m : ℕ) → both m ≡ and_then (front m) back)
    → accumulate radix bound n both o ≡ and_then (accumulate radix bound n front o) back
accumulate-append both front back radix bound n none h = refl
accumulate-append both front back radix bound n (some d) h =
    elim (Bool-cases (ltb (n * radix + d) bound)) [
      | inl fits ↦ rw fits (h (n * radix + d))
      | inr over ↦ rw over refl
    ]

digits_from-append :
    (radix bound n : ℕ) (s t : Text)
    → digits_from radix bound n (s ++ t)
      ≡ and_then (digits_from radix bound n s) (λ m. digits_from radix bound m t)
unfolding digits_from
digits_from-append radix bound n [] t = refl
digits_from-append radix bound n (c ∷ s) t =
    accumulate-append (λ m. digits_from radix bound m (s ++ t)) (λ m. digits_from radix bound m s)
      (λ m. digits_from radix bound m t) radix bound n (to_digit radix c)
      (λ m. digits_from-append radix bound m s t)

pub digits_from-hex_fuel :
    (bound f n : ℕ) → n < 16 ^ f → n < bound → digits_from 16 bound 0 (hex_fuel f n) ≡ some n
unfolding hex_fuel
digits_from-hex_fuel bound zero n h fits = unfold digits_from in ap some (omega arith)
digits_from-hex_fuel bound (suc f) n h fits =
    let last : digits_from 16 bound (n / 16) (hex_digit (n % 16) ∷ []) ≡ some n =
      digits_from_digit 16 bound (n / 16) (hex_digit (n % 16)) (n % 16) []
        (to_digit-hex_digit (n % 16) (omega arith)) (omega arith)
      ∙ (unfold digits_from in ap some (omega arith)) in
    elim (Bool-cases (ltb n 16)) [
      | inl small ↦ rw small (
          subst (λ k. digits_from 16 bound k (hex_digit (n % 16) ∷ []) ≡ some n) (ground arith)
            last)
      | inr large ↦ rw large (
          digits_from-append 16 bound 0 (hex_fuel f (n / 16)) (hex_digit (n % 16) ∷ [])
          ∙ rw (digits_from-hex_fuel bound f (n / 16) (omega (arith, pow-suc 16 f)) (omega arith))
              last)
    ]
