-- ===== src/Notary/Restart.antt =====
-- The map that a restart loads from the file.
use ticker_cash.Prelude.{
  ℕ, ◌/◌, ◌≤◌, ◌≡◌, ◌≢◌, subst, true, List, [], ◌∷◌, ◌==◌, ==_iff, All, ◌⊎◌, inl, inr, Bool-cases,
  arith,
}
use ticker_cash.Statement
use ticker_cash.Statement.{Statement}
use ticker_cash.Tx.Build.Sort.{Ascending}
use ticker_cash.Notary.{Issued, minute_of, contains_key, insert, load_from, load_issued}
use ticker_cash.Notary.Issued.{
  All-insert, All-prune, Ascending-insert, Ascending-prune, length-prune, contains_key-insert,
  contains_key-prune, IsIssued,
}

contains_key-insert_other :
    (issued : Issued) (seq k : ℕ) (st : Statement)
    → contains_key issued k ≡ true
    → contains_key (insert issued seq st) k ≡ true
unfolding contains_key insert
contains_key-insert_other [] seq k st h = cc
contains_key-insert_other (p ∷ rest) seq k st h =
    ground (arith, contains_key-insert_other rest seq k st)

load_from-contains_key :
    (issued : Issued) (lines : List Statement) (k : ℕ)
    → contains_key issued k ≡ true
    → contains_key (load_from issued lines) k ≡ true
unfolding load_from
load_from-contains_key issued [] k h = h
load_from-contains_key issued (st ∷ rest) k h =
    load_from-contains_key (insert issued (Statement.minute st) st) rest k
      (contains_key-insert_other issued (Statement.minute st) k st h)

load_from-Ascending :
    (issued : Issued) (lines : List Statement)
    → Ascending minute_of issued
    → Ascending minute_of (load_from issued lines)
unfolding load_from
load_from-Ascending issued [] h = h
load_from-Ascending issued (st ∷ rest) h =
    load_from-Ascending (insert issued (Statement.minute st) st) rest
      (Ascending-insert issued (Statement.minute st) st h)

load_from-All :
    (last : ℕ) (issued : Issued) (lines : List Statement)
    → All (λ st. Statement.ts st / 60 ≤ last) lines
    → All (λ p. minute_of p ≤ last) issued
    → All (λ p. minute_of p ≤ last) (load_from issued lines)
unfolding load_from Statement.minute
load_from-All last issued [] hs h = h
load_from-All last issued (st ∷ rest) (le, hs) h =
    load_from-All last (insert issued (Statement.minute st) st) rest hs
      (All-insert (λ p. minute_of p ≤ last) issued (Statement.minute st) st le h)

-- A line for a minute puts the minute into the map, or there is none.
load_from_cases :
    (last : ℕ) (issued : Issued) (lines : List Statement)
    → All (λ st. Statement.ts st / 60 ≢ last) lines
      ⊎ (contains_key (load_from issued lines) last ≡ true)
unfolding load_from Statement.minute
load_from_cases last issued [] = inl tt
load_from_cases last issued (st ∷ rest) = elim (Bool-cases (st.ts / 60 == last)) [
  | inl same ↦ inr (
      load_from-contains_key (insert issued (Statement.minute st) st) rest last (
        let is_last : Statement.minute st ≡ last = (==_iff (st.ts / 60) last).0 same in
        subst (λ k. contains_key (insert issued (Statement.minute st) st) k ≡ true) is_last
          (contains_key-insert issued (Statement.minute st) st)))
  | inr other ↦ elim (load_from_cases last (insert issued (Statement.minute st) st) rest) [
    | inl none' ↦ inl ((λ e. ground arith), none')
    | inr there ↦ inr there
  ]
]

-- What is loaded is in order and short, bounded as the lines are, and has the last minute if they do.
pub load_issued-IsIssued : (lines : List Statement) → IsIssued (load_issued lines)
unfolding load_issued
load_issued-IsIssued lines = (
  Ascending-prune (load_from [] lines) (load_from-Ascending [] lines tt),
  length-prune (load_from [] lines),
)

pub load_issued-All :
    (last : ℕ) (lines : List Statement)
    → All (λ st. Statement.ts st / 60 ≤ last) lines
    → All (λ p. minute_of p ≤ last) (load_issued lines)
unfolding load_issued
load_issued-All last lines h =
    All-prune (λ p. minute_of p ≤ last) (load_from [] lines) (load_from-All last [] lines h tt)

pub load_issued_last :
    (last : ℕ) (lines : List Statement)
    → All (λ st. Statement.ts st / 60 ≤ last) lines
    → All (λ st. Statement.ts st / 60 ≢ last) lines ⊎ (contains_key (load_issued lines) last ≡ true)
unfolding load_issued
load_issued_last last lines h = elim (load_from_cases last [] lines) [
  | inl none' ↦ inl none'
  | inr there ↦ inr (
      contains_key-prune (load_from [] lines) last (load_from-Ascending [] lines tt)
        (load_from-All last [] lines h tt) there)
]
