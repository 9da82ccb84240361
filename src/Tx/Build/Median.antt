-- ===== src/Tx/Build/Median.antt =====
-- node/core/src/tx/build.rs: the lower median of the prices and the number of keys that moves it.
pub mod Rank
use ticker_cash.Prelude.{ℕ, ◌+◌, ◌-◌, ◌/◌, Option, List, length, get_elem?}
use ticker_cash.Tx.Build.Sort.{sort_by_key}

-- `none` where the list is empty and the source's index panics.
unfoldable pub lower_median : List ℕ → Option ℕ
lower_median prices =
    let s = sort_by_key (λ price. price) prices in get_elem? s ((length s - 1) / 2)

-- `k - 1` stops at 0 here; the source asks for `k ≥ 1`.
unfoldable pub keys_to_forge : ℕ → ℕ
keys_to_forge k = (k - 1) / 2 + 1
