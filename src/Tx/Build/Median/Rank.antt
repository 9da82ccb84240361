-- ===== src/Tx/Build/Median/Rank.antt =====
-- The lower median is the one number of the list with the ranks that the covenant checks, and fewer
-- keys than `keys_to_forge` cannot move it out of the range of the other prices.
use ticker_cash.Prelude.{
  ℕ, zero, suc, ◌+◌, ◌-◌, ◌/◌, ◌≤◌, ◌<◌, ◌≡◌, ◌↔◌, ap, ◌∙◌, false, not, ◌&&◌, some, List, [], ◌∷◌,
  length, get_elem?, leb, ltb, All, arith, count, count_le, count-not, count-length_le, count_none,
  All-imp, get_elem?-some, All-get_elem?, le_or_lt, inl, inr, le_antisymm, some-injective, ◌==◌,
}
use ticker_cash.Tx.Build.Sort.{
  sort_by_key, Ordered, Ordered-sort_by_key, count-sort_by_key, length-sort_by_key,
}
use ticker_cash.Tx.Build.Median.{lower_median, keys_to_forge}

abbrev pub below : ℕ → List ℕ → ℕ
below m prices = count (λ p. ltb p m) prices

abbrev pub above : ℕ → List ℕ → ℕ
above m prices = count (λ p. ltb m p) prices

-- The three `require`s of `Oracle.update` on the claimed median.
abbrev pub IsLowerMedian : List ℕ → ℕ → Type 0
IsLowerMedian prices m =
    (below m prices ≤ (length prices - 1) / 2)
    × (above m prices ≤ length prices / 2)
    × (below m prices + above m prices < length prices)

abbrev pub IsRank : List ℕ → ℕ → ℕ → Type 0
IsRank xs i m =
    (below m xs ≤ i) × (above m xs + i < length xs) × (below m xs + above m xs < length xs)

-- What stands at a place of an ordered list has at most the earlier elements below it.
pub Ordered-IsRank :
    (xs : List ℕ) (i m : ℕ) → Ordered (λ p. p) xs → get_elem? xs i ≡ some m → IsRank xs i m
Ordered-IsRank [] i m h e = cc
Ordered-IsRank (a ∷ rest) zero m (ha, hs) e =
    let a_m = some-injective e in
    let none_below =
      count_none (λ p. ltb p m) rest
        (All-imp (λ b. a ≤ b) (λ b. ltb b m ≡ false) (λ b h. ground arith) rest ha) in
    let at_most = count-length_le (λ p. ltb m p) rest in (ground arith, ground arith, ground arith)
Ordered-IsRank (a ∷ rest) (suc i) m (ha, hs) e =
    let (b, c, d) = Ordered-IsRank rest i m hs e in
    let a_m = All-get_elem? (λ b. a ≤ b) rest i m ha e in (ground arith, ground arith, ground arith)

lower_median-IsLowerMedian :
    (prices : List ℕ) (m : ℕ) → lower_median prices ≡ some m → IsLowerMedian prices m
unfolding lower_median
lower_median-IsLowerMedian prices m e =
    let s = sort_by_key (λ p. p) prices in
    let (b, c, d) =
      Ordered-IsRank s ((length s - 1) / 2) m (Ordered-sort_by_key (λ p. p) prices) e in
    (
      omega (
        arith,
        count-sort_by_key (λ p. p) (λ p. ltb p m) prices,
        length-sort_by_key (λ p. p) prices,
      ),
      omega (
        arith,
        count-sort_by_key (λ p. p) (λ p. ltb m p) prices,
        length-sort_by_key (λ p. p) prices,
      ),
      omega (
        arith,
        count-sort_by_key (λ p. p) (λ p. ltb p m) prices,
        count-sort_by_key (λ p. p) (λ p. ltb m p) prices,
        length-sort_by_key (λ p. p) prices,
      ),
    )

-- Two numbers cannot both have the ranks.
IsLowerMedian-le :
    (prices : List ℕ) (m n : ℕ) → IsLowerMedian prices m → IsLowerMedian prices n → m ≤ n
IsLowerMedian-le prices m n (a, b, c) (a', b', c') = elim (le_or_lt m n) [
  | inl le ↦ le
  | inr lt ↦ omega (
    arith,
    count-not (λ p. ltb n p) prices,
    count_le (λ p. not (ltb n p)) (λ p. ltb p m) (λ p h. ground arith) prices,
  )
]

IsLowerMedian-lower_median :
    (prices : List ℕ) (m : ℕ) → IsLowerMedian prices m → lower_median prices ≡ some m
unfolding lower_median
IsLowerMedian-lower_median prices m h =
    let s = sort_by_key (λ p. p) prices in
    let len = length-sort_by_key (λ p. p) prices in
    let (n, e) = get_elem?-some s ((length s - 1) / 2) (omega (arith, h.2)) in
    let n_IsLowerMedian = lower_median-IsLowerMedian prices n e in
    e
    ∙ ap some (
        le_antisymm (IsLowerMedian-le prices n m n_IsLowerMedian h)
          (IsLowerMedian-le prices m n h n_IsLowerMedian))

-- `lower_median` returns a number exactly where it has the ranks that the covenant asks of the median:
-- at most (k - 1) / 2 prices are below it, at most k / 2 are above it, and it is one of the k prices.
-- Prices are unsigned here; the covenant compares signed numbers, which are the same below 2^31.
pub lower_median_iff :
    (prices : List ℕ) (m : ℕ) → (lower_median prices ≡ some m) ↔ IsLowerMedian prices m
lower_median_iff prices m =
    (lower_median-IsLowerMedian prices m, IsLowerMedian-lower_median prices m)

-- Where fewer than `keys_to_forge` of the prices lie outside a range, the lower median lies in it.
pub keys_to_forge_needed :
    (prices : List ℕ) (low high m : ℕ)
    → count (λ p. not (leb low p && leb p high)) prices < keys_to_forge (length prices)
    → lower_median prices ≡ some m
    → (low ≤ m) × (m ≤ high)
unfolding keys_to_forge
keys_to_forge_needed prices low high m few e =
    let (a, b, c) = (lower_median_iff prices m).0 e in
    (
      elim (le_or_lt low m) [
        | inl le ↦ le
        | inr lt ↦ omega (
          arith,
          count-not (λ p. ltb m p) prices,
          count_le (λ p. not (ltb m p)) (λ p. not (leb low p && leb p high)) (λ p h. ground arith)
              prices,
        )
      ],
      elim (le_or_lt m high) [
        | inl le ↦ le
        | inr lt ↦ omega (
          arith,
          count-not (λ p. ltb p m) prices,
          count_le (λ p. not (ltb p m)) (λ p. not (leb low p && leb p high)) (λ p h. ground arith)
              prices,
        )
      ],
    )

-- Where `keys_to_forge` of the prices are one number and no price is below it, it is the lower
-- median: that many keys can pull the price down as far as they like.
keys_to_forge_enough :
    (prices : List ℕ) (m : ℕ)
    → All (λ p. m ≤ p) prices
    → keys_to_forge (length prices) ≤ count (λ p. p == m) prices
    → lower_median prices ≡ some m
unfolding keys_to_forge
keys_to_forge_enough prices m floor many =
    let none_below =
      count_none (λ p. ltb p m) prices
        (All-imp (λ p. m ≤ p) (λ p. ltb p m ≡ false) (λ p h. ground arith) prices floor) in
    let total = count-not (λ p. ltb m p) prices in
    let equal = count_le (λ p. p == m) (λ p. not (ltb m p)) (λ p h. ground arith) prices in
    (lower_median_iff prices m).1 (omega arith, omega arith, omega arith)
