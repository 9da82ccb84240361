-- ===== src/Bytes/Bits.antt =====
-- Bit operations on one byte as arithmetic, each checked at all its values.
use Prim.Native.Nat.{bit_and, bit_or}
use ticker_cash.Prelude.{
  ℕ, zero, suc, ◌+◌, ◌*◌, ◌/◌, ◌<◌, ◌≡◌, refl, Bool, true, ◌&&◌, arith, ◌==◌, ==_iff,
}

check_below : ℕ → (ℕ → Bool) → Bool
check_below zero p = true
check_below (suc n) p = check_below n p && p n

check_below_sound : (n : ℕ) (p : ℕ → Bool) (b : ℕ) → check_below n p ≡ true → b < n → p b ≡ true
unfolding check_below
check_below_sound zero p b h lt = absurd (omega arith)
check_below_sound (suc n) p b h lt = ground (arith, check_below_sound n p b)

-- An identity of one byte that holds at every value below `n`.
identity :
    (n : ℕ) (f g : ℕ → ℕ) → check_below n (λ b. f b == g b) ≡ true → (b : ℕ) → b < n → f b ≡ g b
identity n f g h b lt = (==_iff (f b) (g b)).0 (check_below_sound n (λ x. f x == g x) b h lt)

pub top_bit : (b : ℕ) → b < 256 → bit_and b 0x80 ≡ b / 128 * 128
unfolding check_below
top_bit = identity 256 (λ b. bit_and b 0x80) (λ b. b / 128 * 128) refl

pub set_top_bit : (b : ℕ) → b < 128 → bit_or b 0x80 ≡ b + 128
unfolding check_below
set_top_bit = identity 128 (λ b. bit_or b 0x80) (λ b. b + 128) refl
