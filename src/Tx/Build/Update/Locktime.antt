-- ===== src/Tx/Build/Update/Locktime.antt =====
-- The locktime of an update.
use ticker_cash.Prelude.{ℕ, ◌+◌, ◌-◌, ◌%◌, ◌≤◌, ◌<◌, ◌≡◌, max, List, [], ◌∷◌, All, arith}
use ticker_cash.Bytes.{u32_mod}
use ticker_cash.Constants.{seq_ahead_secs}
use ticker_cash.Tx.Build.Types.{TickerUtxo}
use ticker_cash.Tx.Build.Update.{latest, update_locktime}

pub latest-bounds :
    (lt bound : ℕ) (recycled : List TickerUtxo)
    → lt < bound
    → All (λ t. t.recyclable_at < bound) recycled
    → (lt ≤ latest lt recycled)
      × All (λ t. t.recyclable_at ≤ latest lt recycled) recycled
      × (latest lt recycled < bound)
unfolding latest
latest-bounds lt bound [] h hs = (omega arith, tt, h)
latest-bounds lt bound (t ∷ rest) h (ht, hs) =
    let (least, all, below) = latest-bounds (max lt t.recyclable_at) bound rest (omega arith) hs in
    (omega arith, (omega arith, all), below)

-- Where the timestamp and the recycle times fit in a u32, the locktime of an update is six
-- hours before its minute or later, as the covenant asks, and not before the recycle time of any
-- Ticker that it spends.
update_locktime-bounds :
    (ts : ℕ) (recycled : List TickerUtxo)
    → ts < u32_mod
    → All (λ t. t.recyclable_at < u32_mod) recycled
    → (ts ≤ update_locktime ts recycled + seq_ahead_secs)
      × All (λ t. t.recyclable_at ≤ update_locktime ts recycled) recycled
unfolding update_locktime
update_locktime-bounds ts recycled h hs =
    let (least, all, below) =
      latest-bounds (ts - seq_ahead_secs) u32_mod recycled (omega arith) hs in
    let same : latest (ts - seq_ahead_secs) recycled % u32_mod
        ≡ latest (ts - seq_ahead_secs) recycled =
      omega arith in
    (omega arith, rw same all)
