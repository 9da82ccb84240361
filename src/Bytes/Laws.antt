-- ===== src/Bytes/Laws.antt =====
-- The two directions of the little-endian encoding, and the shape of what is written.
use native.Mathlib.Nat.{pow-suc}
use ticker_cash.Prelude.{
  ℕ, zero, suc, ◌+◌, ◌*◌, ◌/◌, ◌%◌, ◌^◌, ◌-◌, ◌≤◌, ◌<◌, ◌≡◌, ◌↔◌, true, refl, ap, [], ◌∷◌, arith,
  length, All, drop, slice, All-take, length-take, length-drop,
}
use ticker_cash.Bytes.{Bytes, IsByte, le_bytes, from_le_bytes, bytes_eq, cells}

pub length-le_bytes : (w v : ℕ) → length (le_bytes w v) ≡ w
unfolding le_bytes
length-le_bytes zero v = refl
length-le_bytes (suc w) v = ap suc (length-le_bytes w (v / 256))

pub le_bytes-IsByte : (w v : ℕ) → All IsByte (le_bytes w v)
unfolding le_bytes
le_bytes-IsByte zero v = tt
le_bytes-IsByte (suc w) v = (omega arith, le_bytes-IsByte w (v / 256))

pub from_le_bytes-le_bytes : (w v : ℕ) → v < 256 ^ w → from_le_bytes (le_bytes w v) ≡ v
unfolding le_bytes from_le_bytes
from_le_bytes-le_bytes zero v h = omega arith
from_le_bytes-le_bytes (suc w) v h =
    omega (arith, from_le_bytes-le_bytes w (v / 256) (omega (arith, pow-suc 256 w)))

pub le_bytes-from_le_bytes :
    (bs : Bytes) → All IsByte bs → le_bytes (length bs) (from_le_bytes bs) ≡ bs
unfolding le_bytes from_le_bytes
le_bytes-from_le_bytes [] h = refl
le_bytes-from_le_bytes (b ∷ bs) (hb, hbs) =
    let tail : (b + 256 * from_le_bytes bs) / 256 ≡ from_le_bytes bs = omega arith in
    let head : (b + 256 * from_le_bytes bs) % 256 ≡ b = omega arith in
    rw (tail, head, le_bytes-from_le_bytes bs hbs)

pub from_le_bytes-lt : (bs : Bytes) → All IsByte bs → from_le_bytes bs < 256 ^ length bs
unfolding from_le_bytes
from_le_bytes-lt [] h = omega arith
from_le_bytes-lt (b ∷ bs) (hb, hbs) =
    omega (arith, from_le_bytes-lt bs hbs, pow-suc 256 (length bs))

pub cells-length : (bs : Bytes) → cells (length bs) bs ≡ bs
unfolding cells
cells-length [] = refl
cells-length (b ∷ bs) = ap (◌∷◌ b) (cells-length bs)

pub bytes_eq_iff : (a b : Bytes) → (bytes_eq a b ≡ true) ↔ (a ≡ b)
unfolding bytes_eq
bytes_eq_iff [] [] = ground arith
bytes_eq_iff [] (y ∷ ys) = ground arith
bytes_eq_iff (x ∷ xs) [] = ground arith
bytes_eq_iff (x ∷ xs) (y ∷ ys) = ground (arith, bytes_eq_iff xs ys)

pub All-drop : (n : ℕ) (bs : Bytes) → All IsByte bs → All IsByte (drop n bs)
All-drop zero bs h = h
All-drop (suc n) [] h = tt
All-drop (suc n) (b ∷ bs) (hb, hbs) = All-drop n bs hbs

pub All-slice : (from to : ℕ) (bs : Bytes) → All IsByte bs → All IsByte (slice from to bs)
All-slice from to bs h = All-take IsByte (to - from) (drop from bs) (All-drop from bs h)

pub length-slice :
    (from w : ℕ) (bs : Bytes) → from + w ≤ length bs → length (slice from (from + w) bs) ≡ w
length-slice from w bs h =
    omega (arith, length-take (from + w - from) (drop from bs), length-drop from bs)

-- Writing back an integer that was read from a slice gives the slice.
pub le_bytes-slice :
    (from w : ℕ) (bs : Bytes)
    → All IsByte bs
    → from + w ≤ length bs
    → le_bytes w (from_le_bytes (slice from (from + w) bs)) ≡ slice from (from + w) bs
le_bytes-slice from w bs h fits =
    let piece = slice from (from + w) bs in
    rw (length-slice from w bs fits) at
      (le_bytes-from_le_bytes piece (All-slice from (from + w) bs h))

-- An integer read from a slice of `w` bytes is below 256 ^ w.
pub from_le_bytes-slice-lt :
    (from w : ℕ) (bs : Bytes)
    → All IsByte bs
    → from + w ≤ length bs
    → from_le_bytes (slice from (from + w) bs) < 256 ^ w
from_le_bytes-slice-lt from w bs h fits =
    let piece = slice from (from + w) bs in
    rw (length-slice from w bs fits) at (from_le_bytes-lt piece (All-slice from (from + w) bs h))
