-- ===== src/Tx/Build/Sign/Values.antt =====
-- Sums of values that fit in a u64.
use ticker_cash.Prelude.{ℕ, ◌+◌, ◌%◌, ◌<◌, ◌≡◌, List, [], ◌∷◌, arith}
use ticker_cash.Bytes.{u64_mod}
use ticker_cash.Tx.Build.Sign.{add_values}

abbrev pub sum_values : List ℕ → ℕ
sum_values [] = 0
sum_values (value ∷ rest) = value + sum_values rest

pub add_values-sum_values :
    (total : ℕ) (values : List ℕ)
    → total + sum_values values < u64_mod
    → add_values total values ≡ total + sum_values values
unfolding add_values
add_values-sum_values total [] h = omega arith
add_values-sum_values total (value ∷ rest) h =
    let fits : (total + value) % u64_mod ≡ total + value = omega arith in
    rw fits (omega (arith, add_values-sum_values (total + value) rest (omega arith)))
