-- ===== src/Price/Rounding.antt =====
-- The arithmetic of the parser: the result is the decimal rounded half up to the eighth place, and
-- nothing wraps around.
use native.Mathlib.Nat.{pow-suc, mul-le-mul_right, mul-le-mul_left}
use ticker_cash.Prelude.{
  ℕ, zero, suc, ◌+◌, ◌-◌, ◌*◌, ◌^◌, ◌≤◌, ◌<◌, ◌≡◌, refl, Bool, true, false, [], ◌∷◌, ◌++◌, length,
  min, Bool-cases, le_or_lt, inl, inr, leb, arith, All,
}
use ticker_cash.Text.{Text}
use ticker_cash.Text.Decimal.{
  IsDigit, decimal_from, decimal_from-append, decimal_from-eq, decimal_from-cons, decimal_from_step,
  decimal_from-lt,
}
use ticker_cash.Price.{scale, frac_loop, assemble}

-- `u` is `n / 10 ^ m` in units of 1 / 10 ^ j, to the nearest unit and a half rounded up.
abbrev pub Rounds : ℕ → ℕ → ℕ → ℕ → Type 0
Rounds j n m u =
    (2 * (10 ^ m * u) ≤ 2 * (10 ^ j * n) + 10 ^ m)
    × (2 * (10 ^ j * n) + 10 ^ m < 2 * (10 ^ m * u) + 2 * 10 ^ m)

-- After the ninth digit the loop changes nothing.
frac_loop_past : (i v : ℕ) (r : Bool) (s : Text) → 8 < i → frac_loop i v r s ≡ (v, r)
unfolding frac_loop
frac_loop_past i v r [] h = refl
frac_loop_past i v r (c ∷ s) h = ground (arith, frac_loop_past (i + 1) v r s)

abbrev carry : Bool → ℕ
carry true = 1
carry false = 0

-- What the loop's result stands for when `m` digits were left and `j` places were free.
abbrev units : ℕ → ℕ → ℕ × Bool → ℕ
units j m (v, r) = v * 10 ^ (j - min m j) + carry r

units-nil : (j v : ℕ) → units j 0 (v, false) ≡ v * 10 ^ j
units-nil j v = let e : j - min 0 j ≡ j = omega arith in rw e (omega arith)

units-suc : (j m : ℕ) (r : ℕ × Bool) → units (suc j) (suc m) r ≡ units j m r
units-suc j m (v, r) = let e : suc j - min (suc m) (suc j) ≡ j - min m j = omega arith in rw e

units-zero : (m v : ℕ) (r : Bool) → units 0 m (v, r) ≡ v + carry r
units-zero m v r = let e : 0 - min m 0 ≡ 0 = omega arith in rw e (omega arith)

ninth_up :
    (v d p rest : ℕ)
    → d ≤ 9
    → rest < p
    → 5 ≤ d
    → (2 * (p * 10 * (v + 1)) ≤ 2 * (1 * ((v * 10 + d) * p + rest)) + p * 10)
      × (2 * (1 * ((v * 10 + d) * p + rest)) + p * 10 < 2 * (p * 10 * (v + 1)) + 2 * (p * 10))
ninth_up v d p rest hd hr up =
    omega (arith, mul-le-mul_right {m = d} {n = 9} p hd, mul-le-mul_right {m = 5} {n = d} p up)

ninth_down :
    (v d p rest : ℕ)
    → rest < p
    → d ≤ 4
    → (2 * (p * 10 * (v + 0)) ≤ 2 * (1 * ((v * 10 + d) * p + rest)) + p * 10)
      × (2 * (1 * ((v * 10 + d) * p + rest)) + p * 10 < 2 * (p * 10 * (v + 0)) + 2 * (p * 10))
ninth_down v d p rest hr down = omega (arith, mul-le-mul_right {m = d} {n = 4} p down)

-- The ninth digit decides the rounding, whatever follows it.
ninth_digit :
    (v d p rest : ℕ)
    → d ≤ 9
    → rest < p
    → (2 * (p * 10 * (v + carry (leb 5 d))) ≤ 2 * (1 * ((v * 10 + d) * p + rest)) + p * 10)
      × (2 * (1 * ((v * 10 + d) * p + rest)) + p * 10
          < 2 * (p * 10 * (v + carry (leb 5 d))) + 2 * (p * 10))
ninth_digit v d p rest hd hr = elim (Bool-cases (leb 5 d)) [
  | inl up ↦ rw up (ninth_up v d p rest hd hr (ground arith))
  | inr down ↦ rw down (ninth_down v d p rest hr (ground arith))
]

-- One more place scales both sides by ten.
next_place :
    (p q n u : ℕ)
    → (2 * (p * u) ≤ 2 * (q * n) + p) × (2 * (q * n) + p < 2 * (p * u) + 2 * p)
    → (2 * (p * 10 * u) ≤ 2 * (q * 10 * n) + p * 10)
      × (2 * (q * 10 * n) + p * 10 < 2 * (p * 10 * u) + 2 * (p * 10))
next_place p q n u h = omega arith

frac_loop-cons :
    (i v : ℕ) (r : Bool) (c : ℕ) (s : Text)
    → i < 8
    → frac_loop i v r (c ∷ s) ≡ frac_loop (i + 1) (v * 10 + (c - b'0')) r s
unfolding frac_loop
frac_loop-cons i v r c s h = ground arith

frac_loop_ninth : (v : ℕ) (c : ℕ) (s : Text) → frac_loop 8 v false (c ∷ s) ≡ (v, leb 5 (c - b'0'))
unfolding frac_loop
frac_loop_ninth v c s = frac_loop_past 9 v (leb 5 (c - b'0')) s (omega arith)

-- From place `i` on, the loop's result is the decimal that the digits read so far and the digits
-- left spell, rounded to the places that are free.
pub frac_loop-Rounds :
    (i j v : ℕ) (s : Text)
    → i + j ≡ 8
    → All IsDigit s
    → Rounds j (decimal_from v s) (length s) (units j (length s) (frac_loop i v false s))
frac_loop-Rounds i j v [] h _ = unfold frac_loop decimal_from in rw (units-nil j v) (omega arith)
frac_loop-Rounds i zero v (c ∷ s) h (hc, hs) =
    let e : i ≡ 8 = omega arith in
    let d = c - b'0' in
    rw
      (
        e,
        frac_loop_ninth v c s,
        units-zero (suc (length s)) v (leb 5 d),
        pow-suc,
        decimal_from-cons v c s,
      )
      (ninth_digit v d (10 ^ length s) (decimal_from 0 s) (omega arith) (decimal_from-lt s hs))
frac_loop-Rounds i (suc j) v (c ∷ s) h (hc, hs) =
    let n = v * 10 + (c - b'0') in
    let ih = frac_loop-Rounds (i + 1) j n s (omega arith) hs in
    rw
      (
        frac_loop-cons i v false c s (omega arith),
        units-suc j (length s) (frac_loop (i + 1) n false s),
        decimal_from_step v c s,
        pow-suc 10 (length s),
        pow-suc 10 j,
      )
      (next_place (10 ^ length s) (10 ^ j) (decimal_from n s) _ ih)

-- The fraction is at most one whole unit.
units-le : (s : Text) (u : ℕ) → All IsDigit s → Rounds 8 (decimal_from 0 s) (length s) u → u ≤ scale
units-le s u h r = elim (le_or_lt u scale) [
  | inl le ↦ le
  | inr lt ↦ absurd (
      omega
        (arith, decimal_from-lt s h, mul-le-mul_left {m = scale + 1} {n = u} (10 ^ length s) lt))
]

-- With an integer part of at most eleven digits the u64 arithmetic does not wrap: the result is
-- the sum of the integer part and the rounded fraction, and at most 10 ^ 19.
assemble_exact :
    (int_val m : ℕ) (r : ℕ × Bool)
    → int_val < 10 ^ 11
    → units 8 m r ≤ scale
    → assemble int_val r (min m 8) ≡ int_val * scale + units 8 m r
unfolding assemble
assemble_exact int_val m (v, true) h fits = ground arith
assemble_exact int_val m (v, false) h fits = ground arith

add_integer :
    (p a f u : ℕ)
    → (2 * (p * u) ≤ 2 * (scale * f) + p) × (2 * (scale * f) + p < 2 * (p * u) + 2 * p)
    → (2 * (p * (a * scale + u)) ≤ 2 * (scale * (a * p + f)) + p)
      × (2 * (scale * (a * p + f)) + p < 2 * (p * (a * scale + u)) + 2 * p)
add_integer p a f u h = omega arith

pub assemble-Rounds :
    (int_part frac_part : Text)
    → All IsDigit frac_part
    → decimal_from 0 int_part < 10 ^ 11
    → (value : ℕ) × (assemble
          (decimal_from 0 int_part)
          (frac_loop 0 0 false frac_part)
          (min (length frac_part) 8)
        ≡ value)
      × Rounds 8 (decimal_from 0 (int_part ++ frac_part)) (length frac_part) value
      × (value ≤ 10 ^ 19)
assemble-Rounds int_part frac_part digits small =
    let r = frac_loop 0 0 false frac_part in
    let m = length frac_part in
    let a = decimal_from 0 int_part in
    let rounds = frac_loop-Rounds 0 8 0 frac_part refl digits in
    let fits = units-le frac_part (units 8 m r) digits rounds in
    (
      a * scale + units 8 m r,
      assemble_exact a m r small fits,
      rw (decimal_from-append 0 int_part frac_part, decimal_from-eq a frac_part)
          (add_integer (10 ^ m) a (decimal_from 0 frac_part) (units 8 m r) rounds),
      omega arith,
    )
