-- ===== src/Daemon/Builder/Collect.antt =====
-- What the notaries' answers become: statements of the rows for the minute.
use ticker_cash.Prelude.{
  ℕ, ◌*◌, ◌%◌, ◌≡◌, refl, subst, some-injective, Bool, true, false, not, ◌||◌, Option, none, some,
  List, [], ◌∷◌, length, ◌==◌, ==_iff, if◌then◌else◌, All, All-imp, Any, Any-elim, ◌<◌, inl, inr,
  Bool-cases, Option-cases, arith,
}
use ticker_cash.Bytes.{Bytes, u32_mod}
use ticker_cash.External.{External}
use ticker_cash.Statement
use ticker_cash.Statement.{Statement}
use ticker_cash.Manifest.{TableRow, pubkey_bytes}
use ticker_cash.Tx.Build.Select.{first_ts}
use ticker_cash.Daemon.Builder.{Answer, unreachable, nothing, signed, push_some, accept, collect}

passed : (a b c : Bool) → (not a || (not b || not c)) ≡ false → (a ≡ true) × (b ≡ true) × (c ≡ true)
passed a b c h = ground arith

module _ (x : External) where
  -- The answer of the row is a statement of its exchange for the minute, signed by its key.
  abbrev pub IsSignedBy : ℕ → Statement → TableRow → Type 0
  IsSignedBy minute st row =
      (st.ts ≡ minute * 60 % u32_mod)
      × (st.source ≡ row.source)
      × ((pk : Bytes) × (pubkey_bytes x row ≡ some pk) × (Statement.verify x st pk ≡ true))

  pub accept-IsSignedBy :
      (minute : ℕ) (row : TableRow) (answer : Answer) (st : Statement)
      → accept x minute row answer ≡ some st
      → (answer ≡ signed st) × IsSignedBy minute st row
  unfolding accept
  accept-IsSignedBy minute row unreachable st e = cc
  accept-IsSignedBy minute row nothing st e = cc
  accept-IsSignedBy minute row (signed s) st e = elim (Option-cases (pubkey_bytes x row)) [
    | inl missing ↦ let e' = rw (missing, accept) at e in absurd (cc)
    | inr (pk, is_pk) ↦
        let late =
          not (s.ts == minute * 60 % u32_mod)
          || (not (s.source == row.source) || not (Statement.verify x s pk)) in
        let e' : (if late then none else some s) ≡ some st = rw (is_pk, accept) at e in
        elim (Bool-cases late) [
          | inl refused ↦ let e'' = rw refused at e' in absurd (cc)
          | inr passes ↦
              let same : s ≡ st = some-injective (rw passes at e') in
              let (on_time, own, good) =
                passed (s.ts == minute * 60 % u32_mod) (s.source == row.source)
                  (Statement.verify x s pk) passes in
              subst (λ st. (signed s ≡ signed st) × IsSignedBy minute st row) same
                (refl, ((==_iff _ _).0 on_time, (==_iff _ _).0 own, (pk, is_pk, good)))
        ]
  ]

  -- Each collected statement is one of a row.
  pub collect-All :
      (answer : TableRow → Answer) (minute : ℕ) (rows : List TableRow)
      → All
          (λ st. Any (λ row. (answer row ≡ signed st) × IsSignedBy minute st row) rows)
          (collect x answer minute rows)
  unfolding collect
  collect-All answer minute [] = tt
  collect-All answer minute (row ∷ rest) =
      let later =
        All-imp (λ st. Any (λ row. (answer row ≡ signed st) × IsSignedBy minute st row) rest)
          (λ st. Any (λ row. (answer row ≡ signed st) × IsSignedBy minute st row) (row ∷ rest))
          (λ st h. inr h) (collect x answer minute rest) (collect-All answer minute rest) in
      push (accept x minute row (answer row))
        (λ st e. inl (accept-IsSignedBy minute row (answer row) st e)) later
    where
      push :
          (o : Option Statement)
          → ((st : Statement)
              → o ≡ some st
              → Any (λ row. (answer row ≡ signed st) × IsSignedBy minute st row) (row ∷ rest))
          → All
              (λ st. Any (λ row. (answer row ≡ signed st) × IsSignedBy minute st row) (row ∷ rest))
              (collect x answer minute rest)
          → All
              (λ st. Any (λ row. (answer row ≡ signed st) × IsSignedBy minute st row) (row ∷ rest))
              (push_some o (collect x answer minute rest))
      push none here later = later
      push (some st) here later = (here st refl, later)

  -- The collected statements are for the minute, and so is the first of them.
  pub first_ts-collect :
      (answer : TableRow → Answer) (minute : ℕ) (rows : List TableRow)
      → 0 < length (collect x answer minute rows)
      → first_ts (collect x answer minute rows) ≡ minute * 60 % u32_mod
  unfolding first_ts
  first_ts-collect answer minute rows some_left =
      first (collect x answer minute rows) (collect-All answer minute rows) some_left
    where
      first :
          (statements : List Statement)
          → All
              (λ st. Any (λ row. (answer row ≡ signed st) × IsSignedBy minute st row) rows)
              statements
          → 0 < length statements
          → first_ts statements ≡ minute * 60 % u32_mod
      first [] h some_left = absurd (omega arith)
      first (st ∷ rest) (h, hs) some_left =
          Any-elim (λ row. (answer row ≡ signed st) × IsSignedBy minute st row)
            (Statement.ts st ≡ minute * 60 % u32_mod) rows (λ row r. r.1.0) h
