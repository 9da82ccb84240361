-- ===== src/Bytes.antt =====
-- Byte strings and the little-endian integers of Rust's standard library. A byte is a number below
-- 256 and an array `[u8; N]` a list, whose bytes and length are stated where a property needs them.
pub mod Laws
pub mod Bits
use ticker_cash.Prelude.{
  ℕ, zero, suc, ◌+◌, ◌-◌, ◌*◌, ◌/◌, ◌%◌, ◌^◌, ◌<◌, List, [], ◌∷◌, Bool, true, false, ◌==◌, ◌&&◌,
  get_or, drop,
}

abbrev pub Bytes : Type 0
Bytes = List ℕ

abbrev pub IsByte : ℕ → Type 0
IsByte b = b < 256

abbrev pub u32_mod : ℕ
u32_mod = 2 ^ 32

abbrev pub u64_mod : ℕ
u64_mod = 2 ^ 64

-- `a - b` of two u64, which wraps.
abbrev pub wrapping_sub : ℕ → ℕ → ℕ
wrapping_sub a b = (a + u64_mod - b) % u64_mod

-- `v.to_le_bytes()` for an integer of `w` bytes.
unfoldable pub le_bytes : ℕ → ℕ → Bytes
le_bytes zero v = []
le_bytes (suc w) v = v % 256 ∷ le_bytes w (v / 256)

-- `a == b` on slices.
unfoldable pub bytes_eq : Bytes → Bytes → Bool
bytes_eq [] [] = true
bytes_eq (a ∷ xs) (b ∷ ys) = a == b && bytes_eq xs ys
bytes_eq _ _ = false

-- `uN::from_le_bytes(bytes)`.
unfoldable pub from_le_bytes : Bytes → ℕ
from_le_bytes [] = 0
from_le_bytes (b ∷ bs) = b + 256 * from_le_bytes bs

-- The first `n` bytes one by one, so that a string of known length can be taken apart.
unfoldable pub cells : ℕ → Bytes → Bytes
cells zero bs = []
cells (suc n) bs = get_or bs 0 0 ∷ cells n (drop 1 bs)
