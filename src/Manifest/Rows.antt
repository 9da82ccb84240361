-- ===== src/Manifest/Rows.antt =====
-- Which tables `validate_rows` accepts.
use ticker_cash.Prelude.{
  ℕ, zero, suc, ◌+◌, ◌≤◌, ◌<◌, ◌≡◌, ◌≢◌, ◌↔◌, refl, subst, true, false, not, ◌||◌, Option, none,
  some, List, [], ◌∷◌, ◌++◌, length, get_elem?, ◌==◌, ltb, All, All-append, append-All, ok,
  >>=-eq-ok, refuse_if-eq-ok, some-injective, arith,
}
use ticker_cash.Text.{eq_ignore_ascii_case}
use ticker_cash.Constants.{quorum, max_rows}
use ticker_cash.External.{External}
use ticker_cash.Sources.{source_by_id}
use ticker_cash.Manifest.{
  TableRow, is_none, check_others, pubkey_bytes, check_row, check_rows, validate_rows,
}

-- Two rows name different keys and different exchanges.
abbrev pub Differs : TableRow → TableRow → Type 0
Differs r o = (eq_ignore_ascii_case o.pubkey r.pubkey ≡ false) × (o.source ≢ r.source)

is_none-eq-false : {A : Type 0} (o : Option A) → is_none o ≡ false → o ≢ none
is_none-eq-false none h e = cc
is_none-eq-false (some a) h e = cc

is_none_of_ne : {A : Type 0} (o : Option A) → o ≢ none → is_none o ≡ false
is_none_of_ne none h = absurd (h refl)
is_none_of_ne (some a) h = refl

check_others_iff :
    (before : List TableRow) (r : TableRow)
    → (check_others before r ≡ ok tt) ↔ All (Differs r) before
unfolding check_others
check_others_iff [] r = (λ h. tt, λ h. refl)
check_others_iff (o ∷ rest) r = ground (arith, check_others_iff rest r)

module _ (x : External) where
  -- A row at its place, with a registered exchange and a key of 33 bytes.
  abbrev pub IsRow : ℕ → TableRow → Type 0
  IsRow i r = (r.row ≡ i) × (source_by_id r.source ≢ none) × (pubkey_bytes x r ≢ none)

  check_row_iff :
      (before : List TableRow) (i : ℕ) (r : TableRow)
      → (check_row x before i r ≡ ok tt) ↔ (IsRow i r × All (Differs r) before)
  unfolding check_row
  check_row_iff before i r = (
    λ h.
        (let (numbered, h1) = refuse_if-eq-ok (not (r.row == i)) _ _ h in
          let (known, h2) = refuse_if-eq-ok (is_none (source_by_id r.source)) _ _ h1 in
          let (keyed, h3) = refuse_if-eq-ok (is_none (pubkey_bytes x r)) _ _ h2 in
          (
            (
              ground arith,
              is_none-eq-false (source_by_id r.source) known,
              is_none-eq-false (pubkey_bytes x r) keyed,
            ),
            (check_others_iff before r).0 h3,
          )),
    λ h.
        (let numbered : (r.row == i) ≡ true = ground arith in
          rw
            (
              numbered,
              is_none_of_ne (source_by_id r.source) h.0.1,
              is_none_of_ne (pubkey_bytes x r) h.0.2,
            )
            ((check_others_iff before r).1 h.1)),
  )

  -- Rows in order from `i` on that differ from the rows before them.
  abbrev AreRows : List TableRow → ℕ → List TableRow → Type 0
  AreRows before i rest =
      (k : ℕ) (r : TableRow)
      → get_elem? rest k ≡ some r
      → IsRow (i + k) r
        × All (Differs r) before
        × ((j : ℕ) (o : TableRow) → j < k → get_elem? rest j ≡ some o → Differs r o)

  AreRows-cons :
      (before : List TableRow) (i : ℕ) (s : TableRow) (rest : List TableRow)
      → IsRow i s
      → All (Differs s) before
      → AreRows (before ++ (s ∷ [])) (suc i) rest
      → AreRows before i (s ∷ rest)
  AreRows-cons before i s rest here differs later zero r e =
      subst
        (λ q.
          IsRow (i + 0) q
          × All (Differs q) before
          × ((j : ℕ) (o : TableRow) → j < 0 → get_elem? (s ∷ rest) j ≡ some o → Differs q o))
        (some-injective e)
        (let place : i + 0 ≡ i = omega arith in
          rw place (here, differs, λ j o lt. absurd (omega arith)))
  AreRows-cons before i s rest here differs later (suc k) r e =
      let (row, all, others) = later k r e in
      let place : i + suc k ≡ suc i + k = omega arith in
      let (front, last) = append-All (Differs r) before (s ∷ []) all in
      (rw place row, front, λ j o lt at_j. earlier k r last.0 others j o lt at_j)
    where
      earlier :
          (k : ℕ) (r : TableRow)
          → Differs r s
          → ((j : ℕ) (o : TableRow) → j < k → get_elem? rest j ≡ some o → Differs r o)
          → (j : ℕ) (o : TableRow) → j < suc k
          → get_elem? (s ∷ rest) j ≡ some o
          → Differs r o
      earlier k r first others zero o lt e = subst (Differs r) (some-injective e) first
      earlier k r first others (suc j) o lt e = others j o (omega arith) e

  AreRows-uncons :
      (before : List TableRow) (i : ℕ) (s : TableRow) (rest : List TableRow)
      → AreRows before i (s ∷ rest)
      → IsRow i s × All (Differs s) before × AreRows (before ++ (s ∷ [])) (suc i) rest
  AreRows-uncons before i s rest h =
      let (here, differs, none_earlier) = h 0 s refl in
      let place : i + 0 ≡ i = omega arith in
      (
        rw place at here,
        differs,
        λ k r e.
            (let (row, all, others) = h (suc k) r e in
              let place' : i + suc k ≡ suc i + k = omega arith in
              (
                rw place' at row,
                All-append (Differs r) before (s ∷ []) all (others 0 s (omega arith) refl, tt),
                λ j o lt at_j. others (suc j) o (omega arith) at_j,
              )),
      )

  check_rows_iff :
      (before : List TableRow) (i : ℕ) (rest : List TableRow)
      → (check_rows x before i rest ≡ ok tt) ↔ AreRows before i rest
  unfolding check_rows
  check_rows_iff before i [] = (λ h k r e. cc, λ h. refl)
  check_rows_iff before i (s ∷ rest) =
      let later = check_rows_iff (before ++ (s ∷ [])) (suc i) rest in
      (
        λ h.
            (let (done, first, h1) = >>=-eq-ok (check_row x before i s) _ h in
              let (here, differs) = (check_row_iff before i s).0 first in
              AreRows-cons before i s rest here differs (later.0 h1)),
        λ h.
            (let (here, differs, after) = AreRows-uncons before i s rest h in
              rw ((check_row_iff before i s).1 (here, differs)) (later.1 after)),
      )

  -- The table of a deployment.
  pub record IsTable (table : List TableRow) : Type 0 where
    pub enough : quorum ≤ length table
    pub few : length table ≤ max_rows
    pub numbered : (i : ℕ) (r : TableRow) → get_elem? table i ≡ some r → IsRow i r
    pub distinct :
        (i j : ℕ) (o r : TableRow)
        → i < j
        → get_elem? table i ≡ some o
        → get_elem? table j ≡ some r
        → Differs r o

  -- `validate_rows` accepts exactly the tables of 7 to 127 rows in which each row has its own number, an
  -- exchange of the registry and a key of 33 bytes, and no two rows share an exchange or, but for the
  -- case of the letters, the text of a key.
  pub validate_rows_iff : (table : List TableRow) → (validate_rows x table ≡ ok tt) ↔ IsTable table
  unfolding validate_rows
  validate_rows_iff table = (accepted, complete)
    where
      accepted : validate_rows x table ≡ ok tt → IsTable table
      accepted h =
          let (sized, h1) =
            refuse_if-eq-ok (ltb (length table) quorum || ltb max_rows (length table)) _ _ h in
          let all = (check_rows_iff [] 0 table).0 h1 in
          record {
            enough = ground arith;
            few = ground arith;
            numbered =
                λ i r e. (let from_0 : 0 + i ≡ i = omega arith in rw from_0 at ((all i r e).0));
            distinct = λ i j o r lt at_i at_j. (all j r at_j).2 i o lt at_i;
          }

      complete : IsTable table → validate_rows x table ≡ ok tt
      complete t =
          let sized : (ltb (length table) quorum || ltb max_rows (length table)) ≡ false =
            ground (arith, t.enough, t.few) in
          rw sized (
            (check_rows_iff [] 0 table).1 (λ k r e. (
              (let from_0 : 0 + k ≡ k = omega arith in rw from_0 (t.numbered k r e)),
              tt,
              λ j o lt at_j. t.distinct j k o r lt at_j e,
            )))
