-- ===== src/Commit/Clock.antt =====
-- node/core/src/commit.rs: the minute clock and the rounding to cents. The time `now_unix()` is an
-- argument.
use ticker_cash.Prelude.{ℕ, ◌+◌, ◌*◌, ◌/◌, ◌%◌, ◌≤◌, ◌<◌, ◌≡◌, arith}
use ticker_cash.Bytes.{u32_mod, u64_mod}

unfoldable pub current_minute : ℕ → ℕ
current_minute now = now / 60 % u32_mod

unfoldable pub current_minute_start : ℕ → ℕ
unfolding current_minute
current_minute_start now = current_minute now * 60 % u32_mod

-- The u64 sum wraps only within 500,000 of 2 ^ 64; the quotient is cut to 32 bits.
unfoldable pub cents_from_1e8 : ℕ → ℕ
cents_from_1e8 price_1e8 = (price_1e8 + 500_000) % u64_mod / 1_000_000 % u32_mod

-- Up to the largest price whose cents fit in 32 bits, the result is the number of cents nearest to
-- the price, a half rounded up.
cents_from_1e8_nearest :
    (p : ℕ)
    → p + 500_000 < u32_mod * 1_000_000
    → (2 * (cents_from_1e8 p * 1_000_000) ≤ 2 * p + 1_000_000)
      × (2 * p + 1_000_000 < 2 * (cents_from_1e8 p * 1_000_000 + 1_000_000))
unfolding cents_from_1e8
cents_from_1e8_nearest p h = omega arith

-- While the clock fits in 32 bits, the start of the minute is the multiple of 60 in the last minute.
current_minute_start_bounds :
    (now : ℕ)
    → now < u32_mod
    → (current_minute_start now % 60 ≡ 0)
      × (current_minute_start now ≤ now)
      × (now < current_minute_start now + 60)
unfolding current_minute_start
current_minute_start_bounds now h = omega arith
