-- ===== src/Notary/Issued.antt =====
-- The map of issued statements: its keys increase, it is no longer than `keep`, and the latest key stays.
use ticker_cash.Prelude.{
  ℕ, ◌≤◌, ◌<◌, ◌≡◌, true, [], ◌∷◌, length, ◌==◌, ltb, All, arith, Bool-cases, inl, inr, All-imp,
}
use ticker_cash.Statement.{Statement}
use ticker_cash.Tx.Build.Sort.{Ascending}
use ticker_cash.Notary.{keep, Issued, minute_of, contains_key, insert, prune}

pub All-insert :
    (P : ℕ × Statement → Type 0) (issued : Issued) (seq : ℕ) (st : Statement)
    → P (seq, st)
    → All P issued
    → All P (insert issued seq st)
unfolding insert
All-insert P [] seq st h hs = (h, tt)
All-insert P (p ∷ rest) seq st h (hp, hs) = elim (Bool-cases (ltb seq (minute_of p))) [
  | inl before ↦ rw before (h, (hp, hs))
  | inr not_before ↦ elim (Bool-cases (seq == minute_of p)) [
    | inl same ↦ rw (not_before, same) (h, hs)
    | inr other ↦ rw (not_before, other) (hp, All-insert P rest seq st h hs)
  ]
]

pub All-prune : (P : ℕ × Statement → Type 0) (issued : Issued) → All P issued → All P (prune issued)
unfolding prune
All-prune P [] h = tt
All-prune P (p ∷ rest) (hp, hs) = elim (Bool-cases (ltb keep (length (p ∷ rest)))) [
  | inl long ↦ rw long (All-prune P rest hs)
  | inr short ↦ rw short (hp, hs)
]

pub Ascending-insert :
    (issued : Issued) (seq : ℕ) (st : Statement)
    → Ascending minute_of issued
    → Ascending minute_of (insert issued seq st)
unfolding insert
Ascending-insert [] seq st h = (tt, tt)
Ascending-insert (p ∷ rest) seq st (hp, hs) = elim (Bool-cases (ltb seq (minute_of p))) [
  | inl before ↦ rw before (
    (
      ground arith,
      All-imp (λ q. minute_of p < minute_of q) (λ q. seq < minute_of q) (λ q h. ground arith) rest
          hp,
    ),
    (hp, hs),
  )
  | inr not_before ↦ elim (Bool-cases (seq == minute_of p)) [
    | inl same ↦
        rw (not_before, same)
          (
            All-imp (λ q. minute_of p < minute_of q) (λ q. seq < minute_of q) (λ q h. ground arith)
                rest hp,
            hs,
          )
    | inr other ↦
        rw (not_before, other)
          (
            All-insert (λ q. minute_of p < minute_of q) rest seq st (ground arith) hp,
            Ascending-insert rest seq st hs,
          )
  ]
]

pub Ascending-prune :
    (issued : Issued) → Ascending minute_of issued → Ascending minute_of (prune issued)
unfolding prune
Ascending-prune [] h = tt
Ascending-prune (p ∷ rest) (hp, hs) = elim (Bool-cases (ltb keep (length (p ∷ rest)))) [
  | inl long ↦ rw long (Ascending-prune rest hs)
  | inr short ↦ rw short (hp, hs)
]

pub length-prune : (issued : Issued) → length (prune issued) ≤ keep
unfolding prune
length-prune [] = omega arith
length-prune (p ∷ rest) = ground (arith, length-prune rest)

-- A key that no other exceeds survives.
pub contains_key-insert :
    (issued : Issued) (seq : ℕ) (st : Statement) → contains_key (insert issued seq st) seq ≡ true
unfolding contains_key insert
contains_key-insert [] seq st = ground arith
contains_key-insert (p ∷ rest) seq st = ground (arith, contains_key-insert rest seq st)

pub contains_key-prune :
    (issued : Issued) (seq : ℕ)
    → Ascending minute_of issued
    → All (λ q. minute_of q ≤ seq) issued
    → contains_key issued seq ≡ true
    → contains_key (prune issued) seq ≡ true
unfolding contains_key prune
contains_key-prune [] seq h b c = cc
contains_key-prune (p ∷ []) seq h b c = ground arith
contains_key-prune (p ∷ q ∷ rest) seq ((pq, hp), hs) (bp, (bq, bs)) c =
    ground (arith, contains_key-prune (q ∷ rest) seq hs (bq, bs))

-- The keys increase and are at most `keep`.
abbrev pub IsIssued : Issued → Type 0
IsIssued issued = Ascending minute_of issued × (length issued ≤ keep)

pub IsIssued-prune :
    (issued : Issued) (seq : ℕ) (st : Statement)
    → IsIssued issued
    → IsIssued (prune (insert issued seq st))
IsIssued-prune issued seq st (h, short) = (
  Ascending-prune (insert issued seq st) (Ascending-insert issued seq st h),
  length-prune (insert issued seq st),
)

-- The keys are bounded, and the latest stays.
pub latest_stays :
    (issued : Issued) (seq : ℕ) (st : Statement)
    → Ascending minute_of issued
    → All (λ q. minute_of q ≤ seq) issued
    → All (λ q. minute_of q ≤ seq) (prune (insert issued seq st))
      × (contains_key (prune (insert issued seq st)) seq ≡ true)
latest_stays issued seq st h below =
    let below' = All-insert (λ q. minute_of q ≤ seq) issued seq st (omega arith) below in
    (
      All-prune (λ q. minute_of q ≤ seq) (insert issued seq st) below',
      contains_key-prune (insert issued seq st) seq (Ascending-insert issued seq st h) below'
          (contains_key-insert issued seq st),
    )
