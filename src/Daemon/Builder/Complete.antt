-- ===== src/Daemon/Builder/Complete.antt =====
-- A quorum of collected statements is always placed.
use ticker_cash.Prelude.{
  ℕ, zero, suc, ◌+◌, ◌*◌, ◌%◌, ◌≤◌, ◌<◌, ◌≡◌, refl, sym, ap, ◌∙◌, Bool, true, false, not, ◌||◌,
  some, List, [], ◌∷◌, ◌++◌, length, drop, get_elem?, get_elem?-some, ◌==◌, ==_iff, leb, ltb, All,
  All-imp, All-append, ok, inl, inr, Option-cases, some-injective, arith, le_or_lt,
}
use ticker_cash.Bytes.{Bytes, bytes_eq, u32_mod}
use ticker_cash.Bytes.Laws.{bytes_eq_iff}
use ticker_cash.Constants.{quorum, max_rows, table_entry_len}
use ticker_cash.External.{External}
use ticker_cash.Statement
use ticker_cash.Statement.{Statement}
use ticker_cash.Manifest.{TableRow, table_bytes}
use ticker_cash.Manifest.Rows.{IsTable}
use ticker_cash.Manifest.Table.{table_entry-table_bytes, length-table_bytes_of_IsTable}
use ticker_cash.Tx.Covenant.{table_rows, table_hash}
use ticker_cash.Tx.Build.Types.{HeadUtxo}
use ticker_cash.Tx.Build.Sort.{sort_by_key}
use ticker_cash.Tx.Build.Select.{
  find_row, Placed, row_of, has_row, first_ts, check_table, row_signs, place_statements,
  select_statements,
}
use ticker_cash.Daemon.Builder.{Answer, accept, collect}
use ticker_cash.Daemon.Builder.Collect.{IsSignedBy, accept-IsSignedBy, first_ts-collect}

find_row_first :
    (test : ℕ → Bool) (row left i : ℕ)
    → row ≤ i
    → i < row + left
    → test i ≡ true
    → ((j : ℕ) → j < i → test j ≡ false)
    → find_row test row left ≡ some i
unfolding find_row
find_row_first test row zero i le lt h others = absurd (omega arith)
find_row_first test row (suc left) i le lt h others = elim (le_or_lt i row) [
  | inl back ↦
      let same : i ≡ row = omega arith in
      let here : test row ≡ true = rw same at h in rw here (ap some (sym same))
  | inr later ↦
      rw (others row later) (find_row_first test (suc row) left i later (omega arith) h others)
]

has_row_below :
    {A : Type 0} (placed : List (Placed A)) (i : ℕ)
    → All (λ p. row_of p < i) placed
    → has_row placed i ≡ false
unfolding has_row
has_row_below [] i h = refl
has_row_below (p ∷ rest) i (hp, h) = ground (arith, has_row_below rest i h)

drop_cons :
    {A : Type 0} (i : ℕ) (xs : List A) (a : A) (rest : List A)
    → drop i xs ≡ a ∷ rest
    → (get_elem? xs i ≡ some a) × (drop (suc i) xs ≡ rest)
drop_cons zero [] a rest e = cc
drop_cons zero (b ∷ xs) a rest e = (cc, cc)
drop_cons (suc i) [] a rest e = cc
drop_cons (suc i) (b ∷ xs) a rest e = drop_cons i xs a rest e

well_shaped :
    (rows bytes n : ℕ)
    → rows ≡ n
    → bytes ≡ 34 * n
    → quorum ≤ n
    → n ≤ max_rows
    → (rows == 0 || (ltb max_rows rows || not (bytes % table_entry_len == 0))) ≡ false
well_shaped rows bytes n h k enough few = ground arith

module _ (x : External) (table : List TableRow) (t : IsTable x table) where
  -- The row of a statement is found by its exchange, which no other row has.
  row_signs_own :
      (minute i : ℕ) (row : TableRow) (st : Statement)
      → get_elem? table i ≡ some row
      → IsSignedBy x minute st row
      → row_signs x (table_bytes x table) st i ≡ true
  unfolding row_signs
  row_signs_own minute i row st at_i (on_time, own, (pk, is_pk, good)) =
      let (rows, (pk', is_pk', entry)) = table_entry-table_bytes x table i row t at_i in
      let same : pk' ≡ pk = some-injective (sym is_pk' ∙ is_pk) in
      let same_source : (row.source == st.source) ≡ true =
        (==_iff row.source st.source).1 (sym own) in
      let verified : Statement.verify x st pk' ≡ true =
        ap (λ k. Statement.verify x st k) same ∙ good in
      rw (entry, row_signs) (rw (same_source, verified) refl)

  row_signs_other :
      (minute i j : ℕ) (row : TableRow) (st : Statement)
      → get_elem? table i ≡ some row
      → IsSignedBy x minute st row
      → i < length table
      → j < i
      → row_signs x (table_bytes x table) st j ≡ false
  unfolding row_signs
  row_signs_other minute i j row st at_i (on_time, own, signs) fits lt =
      let (other, at_j) = get_elem?-some table j (omega arith) in
      let (rows, (pk, is_pk, entry)) = table_entry-table_bytes x table j other t at_j in
      let differs = (t.distinct j i other row lt at_j at_i).1 in
      let other_source : (other.source == st.source) ≡ false = ground (arith, differs) in
      rw (entry, row_signs) (rw other_source refl)

  find_row_own :
      (minute i : ℕ) (row : TableRow) (st : Statement)
      → get_elem? table i ≡ some row
      → i < length table
      → IsSignedBy x minute st row
      → find_row (row_signs x (table_bytes x table) st) 0 (table_rows (table_bytes x table))
        ≡ some i
  find_row_own minute i row st at_i fits signs =
      let rows = (table_entry-table_bytes x table i row t at_i).0 in
      find_row_first (row_signs x (table_bytes x table) st) 0 (table_rows (table_bytes x table)) i
        (omega arith) (omega (arith, rows)) (row_signs_own minute i row st at_i signs)
        (λ j lt. row_signs_other minute i j row st at_i signs fits lt)

  -- The rows from `i` on.
  abbrev Suffix : ℕ → List TableRow → Type 0
  Suffix i rest = (drop i table ≡ rest) × (i + length rest ≡ length table)

  place_collect :
      (answer : TableRow → Answer) (minute ts i : ℕ) (rest : List TableRow)
      (placed : List (Placed Statement))
      → ts ≡ minute * 60 % u32_mod
      → Suffix i rest
      → All (λ p. row_of p < i) placed
      → (all : List (Placed Statement)) × (place_statements x
            (table_bytes x table)
            (table_rows (table_bytes x table))
            ts
            (collect x answer minute rest)
            placed
          ≡ ok all)
  unfolding place_statements collect
  place_collect answer minute ts i [] placed is_ts suffix below = (placed, refl)
  place_collect answer minute ts i (row ∷ rest) placed is_ts suffix below =
      let (at_i, later) = drop_cons i table row rest suffix.0 in
      let next : Suffix (suc i) rest = (later, omega (arith, suffix.1)) in
      elim (Option-cases (accept x minute row (answer row))) [
        | inl nothing' ↦ rw nothing' (
            place_collect answer minute ts (suc i) rest placed is_ts next (
              All-imp (λ p. row_of p < i) (λ p. row_of p < suc i) (λ p h. omega arith) placed
                below))
        | inr (st, accepted) ↦
            let signs = (accept-IsSignedBy x minute row (answer row) st accepted).1 in
            let on_time : (st.ts == ts) ≡ true = (==_iff st.ts ts).1 (signs.0 ∙ sym is_ts) in
            let found = find_row_own minute i row st at_i (omega (arith, suffix.1)) signs in
            rw (accepted, on_time, found, has_row_below placed i below)
              (place_collect answer minute ts (suc i) rest (placed ++ ((i, st) ∷ [])) is_ts next (
                All-append (λ p. row_of p < suc i) placed ((i, st) ∷ [])
                  (All-imp (λ p. row_of p < i) (λ p. row_of p < suc i) (λ p h. omega arith) placed
                    below)
                  (omega arith, tt)))
      ]

  check_table_bytes :
      (hash : Bytes)
      → hash ≡ table_hash x (table_bytes x table)
      → check_table x (table_bytes x table) hash ≡ ok (table_rows (table_bytes x table))
  unfolding check_table
  check_table_bytes hash same =
      let long = length-table_bytes_of_IsTable x table t in
      let rows : table_rows (table_bytes x table) ≡ length table = rows_of in
      let shape : (table_rows (table_bytes x table) == 0
            || (ltb max_rows (table_rows (table_bytes x table))
                || not (length (table_bytes x table) % table_entry_len == 0)))
          ≡ false =
        well_shaped (table_rows (table_bytes x table)) (length (table_bytes x table)) (length table)
          rows long t.enough t.few in
      let hashed : bytes_eq (table_hash x (table_bytes x table)) hash ≡ true =
        (bytes_eq_iff _ _).1 (sym same) in
      rw (shape, hashed) refl
    where
      rows_of : table_rows (table_bytes x table) ≡ length table
      rows_of =
          let (row, at_0) = get_elem?-some table 0 (omega (arith, t.enough)) in
          (table_entry-table_bytes x table 0 row t at_0).0

  -- For a table that `validate_rows` accepts and the hash that the head carries, and a minute later than the
  -- head's: the statements that `collect` accepts are always selected where they are a quorum, so that
  -- none of the other errors of `select_statements` can stop an update.
  pub select_statements-collect :
      (answer : TableRow → Answer) (minute : ℕ) (head : HeadUtxo)
      → head.commit.table_hash ≡ table_hash x (table_bytes x table)
      → head.commit.snapshot.ts < minute * 60 % u32_mod
      → quorum ≤ length (collect x answer minute table)
      → (placed : List (Placed Statement)) × (select_statements x head
            (table_bytes x table)
            (collect x answer minute table)
          ≡ ok placed)
  unfolding select_statements
  select_statements-collect answer minute head hash later enough =
      let statements = collect x answer minute table in
      let on_time : first_ts statements ≡ minute * 60 % u32_mod =
        first_ts-collect x answer minute table (omega arith) in
      let (all, placed) =
        place_collect answer minute (first_ts statements) 0 table [] on_time (refl, omega arith)
          tt in
      let many : ltb (length statements) quorum ≡ false = ground arith in
      let fresh : leb (first_ts statements) head.commit.snapshot.ts ≡ false = ground arith in
      (
        sort_by_key row_of all,
        rw (check_table_bytes head.commit.table_hash hash, many, fresh, placed) refl,
      )
