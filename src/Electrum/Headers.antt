-- ===== src/Electrum/Headers.antt =====
-- node/core/src/electrum/client.rs: the median-time-past of the tip.
use ticker_cash.Prelude.{
  ℕ, zero, suc, ◌+◌, ◌-◌, ◌*◌, ◌/◌, ◌%◌, ◌^◌, ◌≤◌, ◌<◌, ◌≡◌, refl, sym, ap, ◌∙◌, ◌||◌, not, some,
  List, [], ◌∷◌, length, drop, slice, get_elem?, get_or, ltb, ◌==◌, All, All-take, Result, ok,
  ◌>>=◌, ◌>>◌, refuse_if, refuse_if-eq-ok, ok-injective, get_elem?-some, get_or-of_get_elem?,
  All-get_elem?, length-take, arith,
}
use ticker_cash.Bytes.{Bytes, IsByte, from_le_bytes, u32_mod}
use ticker_cash.Bytes.Laws.{from_le_bytes-lt, All-drop}
use ticker_cash.Electrum.{ElectrumError, bad_shape}
use ticker_cash.Tx.Build.Sort.{
  sort_by_key, Ordered-sort_by_key, All-sort_by_key, count-sort_by_key, length-sort_by_key,
}
use ticker_cash.Tx.Build.Median.Rank.{IsRank, Ordered-IsRank}

-- The timestamps of headers of 80 bytes, each at its bytes 68 to 71.
unfoldable pub timestamps : ℕ → Bytes → List ℕ
timestamps zero raw = []
timestamps (suc n) raw = from_le_bytes (slice 68 72 raw) ∷ timestamps n (drop 80 raw)

unfoldable pub median_of_headers : Bytes → Result ElectrumError ℕ
median_of_headers raw = do
  refuse_if (length raw == 0 || not (length raw % 80 == 0)) bad_shape
  let ts = sort_by_key (λ t. t) (timestamps (length raw / 80) raw)
  ok (get_or ts (length ts / 2) 0)

-- `median_time_past`, over the answers of `tip_height` and `block_headers`.
unfoldable pub median_time_past :
    Result ElectrumError ℕ
    → ((start count : ℕ) → Result ElectrumError Bytes)
    → Result ElectrumError ℕ
median_time_past tip_height block_headers = do
  tip ← tip_height
  let start = tip - 10
  raw ← block_headers start (tip - start + 1)
  median_of_headers raw

length-timestamps : (n : ℕ) (raw : Bytes) → length (timestamps n raw) ≡ n
unfolding timestamps
length-timestamps zero raw = refl
length-timestamps (suc n) raw = ap suc (length-timestamps n (drop 80 raw))

timestamps-lt : (n : ℕ) (raw : Bytes) → All IsByte raw → All (λ t. t < u32_mod) (timestamps n raw)
unfolding timestamps
timestamps-lt zero raw h = tt
timestamps-lt (suc n) raw h =
    let four = slice 68 72 raw in
    let small = from_le_bytes-lt four (All-take IsByte 4 (drop 68 raw) (All-drop 68 raw h)) in
    (
      short four (from_le_bytes four) (omega (arith, length-take 4 (drop 68 raw))) small,
      timestamps-lt n (drop 80 raw) (All-drop 80 raw h),
    )
  where
    short : (bytes : Bytes) (v : ℕ) → length bytes ≤ 4 → v < 256 ^ length bytes → v < u32_mod
    short [] v le lt = omega arith
    short (a ∷ []) v le lt = omega arith
    short (a ∷ b ∷ []) v le lt = omega arith
    short (a ∷ b ∷ c ∷ []) v le lt = omega arith
    short (a ∷ b ∷ c ∷ d ∷ []) v le lt = omega arith
    short (a ∷ b ∷ c ∷ d ∷ f ∷ rest) v le lt = absurd (omega arith)

-- `median_of_headers` answers only for whole headers of 80 bytes; at most half of their timestamps are
-- below the answer and, rounded up, fewer than half are above it, so at most five of eleven each; some
-- timestamp is equal to it; and it fits in 32 bits.
pub median_of_headers_median :
    (raw : Bytes) (m : ℕ)
    → All IsByte raw
    → median_of_headers raw ≡ ok m
    → let ts = timestamps (length raw / 80) raw in
      (80 * length ts ≡ length raw) × IsRank ts (length ts / 2) m × (m < u32_mod)
unfolding median_of_headers
median_of_headers_median raw m bytes e =
    let (shape, e1) = refuse_if-eq-ok (length raw == 0 || not (length raw % 80 == 0)) _ _ e in
    let n = length raw / 80 in
    let ts = timestamps n raw in
    let sorted = sort_by_key (λ t. t) ts in
    let many = length-timestamps n raw in
    let same = length-sort_by_key (λ t. t) ts in
    let whole : (0 < length raw) × (length raw % 80 ≡ 0) = (ground arith, ground arith) in
    let (a, at_half) =
      get_elem?-some sorted (length sorted / 2) (omega (arith, whole.0, whole.1)) in
    let is_m : a ≡ m =
      sym (get_or-of_get_elem? sorted (length sorted / 2) a 0 at_half) ∙ ok-injective e1 in
    let at_m : get_elem? sorted (length sorted / 2) ≡ some m = at_half ∙ ap some is_m in
    let (below, above, both) =
      Ordered-IsRank sorted (length sorted / 2) m (Ordered-sort_by_key (λ t. t) ts) at_m in
    let counted_below = count-sort_by_key (λ t. t) (λ t. ltb t m) ts in
    let counted_above = count-sort_by_key (λ t. t) (λ t. ltb m t) ts in
    (
      omega (arith, whole.1),
      (omega arith, omega arith, omega arith),
      All-get_elem? (λ t. t < u32_mod) sorted (length sorted / 2) m
          (All-sort_by_key (λ t. t) (λ t. t < u32_mod) ts (timestamps-lt n raw bytes)) at_m,
    )
