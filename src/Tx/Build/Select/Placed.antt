-- ===== src/Tx/Build/Select/Placed.antt =====
-- The statements that `select_statements` returns: each at its own row, in order, and none lost.
use ticker_cash.Prelude.{
  ℕ, zero, suc, ◌+◌, ◌%◌, ◌≤◌, ◌<◌, ◌≡◌, refl, sym, ap, subst, Bool, true, false, not, ◌&&◌, ◌||◌,
  Option, none, some, List, [], ◌∷◌, ◌++◌, length, ◌==◌, leb, ltb, ok, ok_or, >>=-eq-ok,
  refuse_if-eq-ok, ok_or-eq-ok, ok-injective, count, count-true, count-append, All, All-append,
  arith, inl, inr, Bool-cases, ==_iff, some-injective, not-eq-false,
}
use ticker_cash.Bytes.{Bytes, bytes_eq}
use ticker_cash.Bytes.Laws.{bytes_eq_iff}
use ticker_cash.Constants.{quorum, max_rows, table_entry_len}
use ticker_cash.External.{External}
use ticker_cash.Statement
use ticker_cash.Statement.{Statement}
use ticker_cash.Tx.Covenant.{table_rows, table_hash, table_entry}
use ticker_cash.Tx.Build.Types.{no_row, HeadUtxo}
use ticker_cash.Tx.Build.Sort.{
  sort_by_key, Ascending, Distinct, Ordered-sort_by_key, Ordered-Ascending, All-sort_by_key,
  count-sort_by_key, length-sort_by_key,
}
use ticker_cash.Tx.Build.Select.{
  find_row, Placed, row_of, has_row, check_table, row_signs, place_statements, first_ts,
  select_statements,
}

pub find_row-eq-some :
    (test : ℕ → Bool) (row rows_left r : ℕ)
    → find_row test row rows_left ≡ some r
    → (r < row + rows_left) × (test r ≡ true)
unfolding find_row
find_row-eq-some test row zero r e = cc
find_row-eq-some test row (suc rows_left) r e = elim (Bool-cases (test row)) [
  | inl passes ↦
      let same = some-injective (rw (passes, find_row) at e) in (omega arith, rw (← same) passes)
  | inr fails ↦
      let (lt, passes) = find_row-eq-some test (suc row) rows_left r (rw (fails, find_row) at e) in
      (omega arith, passes)
]

module _ {A : Type 0} where
  has_row-count :
      (placed : List (Placed A)) (r : ℕ)
      → has_row placed r ≡ false
      → count (λ p. row_of p == r) placed ≡ 0
  unfolding has_row
  has_row-count [] r h = refl
  has_row-count (p ∷ rest) r h = ground (arith, has_row-count rest r)

  -- A placed element whose row is new keeps the rows distinct.
  pub Distinct-push :
      (placed : List (Placed A)) (r : ℕ) (a : A)
      → has_row placed r ≡ false
      → Distinct row_of placed
      → Distinct row_of (placed ++ ((r, a) ∷ []))
  Distinct-push placed r a fresh d k =
      let total = count-append (λ p. row_of p == k) placed ((r, a) ∷ []) in
      ground (arith, d k, has_row-count placed r fresh)

  Distinct-sort_by_key :
      (placed : List (Placed A))
      → Distinct row_of placed
      → Distinct row_of (sort_by_key row_of placed)
  Distinct-sort_by_key placed d k =
      omega (arith, d k, count-sort_by_key row_of (λ p. row_of p == k) placed)

  -- Distinct rows in order increase.
  pub Ascending-sort_by_key :
      (placed : List (Placed A))
      → Distinct row_of placed
      → Ascending row_of (sort_by_key row_of placed)
  Ascending-sort_by_key placed d =
      Ordered-Ascending row_of (sort_by_key row_of placed) (Ordered-sort_by_key row_of placed)
        (Distinct-sort_by_key placed d)

module _ (x : External) where
  -- The row is in the table, the statement is for the update's timestamp, and the row's entry has the
  -- statement's source and a key that it verifies under.
  abbrev pub IsSigned : Bytes → ℕ → Placed Statement → Type 0
  IsSigned table ts p =
      (row_of p < table_rows table)
      × (p.1.ts ≡ ts)
      × ((pk : Bytes) × (table_entry table (row_of p) ≡ some (pk, p.1.source))
          × (Statement.verify x p.1 pk ≡ true))

  entry_signs :
      (s : Statement) (o : Option (Bytes × ℕ))
      → elim o [ none ↦ false | some entry ↦ entry.1 == s.source && Statement.verify x s entry.0 ]
        ≡ true
      → (pk : Bytes) × (o ≡ some (pk, s.source)) × (Statement.verify x s pk ≡ true)
  entry_signs s none h = cc
  entry_signs s (some (pk, source)) h = elim (Bool-cases (source == s.source)) [
    | inl same ↦ (pk, ap (λ n. some (pk, n)) ((==_iff source s.source).0 same), rw same at h)
    | inr other ↦ let bad = rw other at h in cc
  ]

  row_signs-IsSigned :
      (table : Bytes) (s : Statement) (row : ℕ)
      → row_signs x table s row ≡ true
      → (pk : Bytes) × (table_entry table row ≡ some (pk, s.source))
        × (Statement.verify x s pk ≡ true)
  unfolding row_signs
  row_signs-IsSigned table s row h = entry_signs s (table_entry table row) h

  shape_sound :
      (rows entries : ℕ)
      → (rows == 0 || (ltb max_rows rows || not (entries == 0))) ≡ false
      → (0 < rows) × (rows ≤ max_rows) × (entries ≡ 0)
  shape_sound rows entries h = (ground arith, ground arith, ground arith)

  pub check_table_sound :
      (table hash : Bytes) (n : ℕ)
      → check_table x table hash ≡ ok n
      → (n ≡ table_rows table)
        × (table_hash x table ≡ hash)
        × (0 < n)
        × (n ≤ max_rows)
        × (length table % table_entry_len ≡ 0)
  unfolding check_table
  check_table_sound table hash n e =
      let rows = table_rows table in
      let entries = length table % table_entry_len in
      let (shape, e1) =
        refuse_if-eq-ok (rows == 0 || (ltb max_rows rows || not (entries == 0))) _ _ e in
      let (same, e2) = refuse_if-eq-ok (not (bytes_eq (table_hash x table) hash)) _ _ e1 in
      let n_rows : rows ≡ n = ok-injective e2 in
      let (some_row, few_rows, whole) = shape_sound rows entries shape in
      (
        sym n_rows,
        (bytes_eq_iff (table_hash x table) hash).0
            (not-eq-false (bytes_eq (table_hash x table) hash) same),
        omega arith,
        omega arith,
        whole,
      )

  place_statements-placed :
      (table : Bytes) (ts : ℕ) (rest : List Statement) (placed all : List (Placed Statement))
      → place_statements x table (table_rows table) ts rest placed ≡ ok all
      → All (IsSigned table ts) placed
      → Distinct row_of placed
      → All (IsSigned table ts) all
        × Distinct row_of all
        × ((test : Statement → Bool)
            → count (λ p. test p.1) all ≡ count (λ p. test p.1) placed + count test rest)
  unfolding place_statements
  place_statements-placed table ts [] placed all e signed d =
      let same = ok-injective e in
      (
        subst (All (IsSigned table ts)) same signed,
        subst (Distinct row_of) same d,
        λ test. rw (← same) (omega arith),
      )
  place_statements-placed table ts (s ∷ rest) placed all e signed d =
      let (on_time, e1) = refuse_if-eq-ok (not (s.ts == ts)) _ _ e in
      let (r, found, e2) =
        >>=-eq-ok (ok_or (find_row (row_signs x table s) 0 (table_rows table)) (no_row s.source)) _
          e1 in
      let (fresh, e3) = refuse_if-eq-ok (has_row placed r) _ _ e2 in
      let (lt, signs) =
        find_row-eq-some (row_signs x table s) 0 (table_rows table) r (ok_or-eq-ok _ _ found) in
      let (signed', d', counts) =
        place_statements-placed table ts rest (placed ++ ((r, s) ∷ [])) all e3
          (All-append (IsSigned table ts) placed ((r, s) ∷ []) signed (
            (
              omega (arith, lt),
              (==_iff s.ts ts).0 (ground arith),
              row_signs-IsSigned table s r signs,
            ),
            tt,
          ))
          (Distinct-push placed r s fresh d) in
      (
        signed',
        d',
        λ test. omega (arith, counts test, count-append (λ p. test p.1) placed ((r, s) ∷ [])),
      )

  -- The table is the head's and small enough, the timestamp is above the head's, the rows increase,
  -- each statement is signed at its row, and the statements are the given ones, a quorum at least.
  abbrev pub IsSelection : HeadUtxo → Bytes → List Statement → List (Placed Statement) → Type 0
  IsSelection head table statements placed =
      (table_hash x table ≡ head.commit.table_hash)
      × (table_rows table ≤ max_rows)
      × (head.commit.snapshot.ts < first_ts statements)
      × Ascending row_of placed
      × All (IsSigned table (first_ts statements)) placed
      × ((test : Statement → Bool) → count (λ p. test p.1) placed ≡ count test statements)
      × (length placed ≡ length statements)
      × (quorum ≤ length placed)

  -- Where `select_statements` succeeds: the table hashes to the head's commitment, has at most 127
  -- rows, and the timestamp of the first statement is above the head's; the rows increase; every
  -- placed statement is at a row of the table that reads its source and whose key it verifies under,
  -- and is for that one timestamp; and the placed statements are the given ones in another order, at
  -- least a quorum of them.
  pub select_statements_sound :
      (head : HeadUtxo) (table : Bytes) (statements : List Statement)
      (placed : List (Placed Statement))
      → select_statements x head table statements ≡ ok placed
      → IsSelection head table statements placed
  unfolding select_statements
  select_statements_sound head table statements placed e =
      let ts = first_ts statements in
      let (n, checked, e1) = >>=-eq-ok (check_table x table head.commit.table_hash) _ e in
      let (enough, e2) = refuse_if-eq-ok (ltb (length statements) quorum) _ _ e1 in
      let (newer, e3) = refuse_if-eq-ok (leb ts head.commit.snapshot.ts) _ _ e2 in
      let (all, place, e4) = >>=-eq-ok (place_statements x table n ts statements []) _ e3 in
      let is_sorted : sort_by_key row_of all ≡ placed = ok-injective e4 in
      let (rows, hashed, some_row, few_rows, whole) =
        check_table_sound table head.commit.table_hash n checked in
      let place' = subst (λ n. place_statements x table n ts statements [] ≡ ok all) rows place in
      let (signed, d, counts) =
        place_statements-placed table ts statements [] all place' tt (λ k. omega arith) in
      let len : length (sort_by_key row_of all) ≡ length statements = omega (
        arith,
        length-sort_by_key row_of all,
        counts (λ s. true),
        count-true all,
        count-true statements,
      ) in
      subst (IsSelection head table statements) is_sorted (
        hashed,
        omega (arith, few_rows, rows),
        ground arith,
        Ascending-sort_by_key all d,
        All-sort_by_key row_of (IsSigned table ts) all signed,
        (λ test. omega (arith, count-sort_by_key row_of (λ p. test p.1) all, counts test)),
        len,
        ground arith,
      )
