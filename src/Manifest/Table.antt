-- ===== src/Manifest/Table.antt =====
-- The bytes of a table: what the covenant hashes is what the rows say.
use ticker_cash.Prelude.{
  ℕ, zero, suc, ◌+◌, ◌*◌, ◌-◌, ◌≡◌, ◌≢◌, refl, sym, ap, ◌∙◌, true, Option, none, some, and_then,
  List, [], ◌∷◌, ◌++◌, append_assoc, length, get_elem?, get_or, take, leb, All, length-append,
  get_or-append, drop-append_eq, take-append_eq, All-of_get_elem?, All-get_elem?, Option-cases, ◌⊎◌,
  inl, inr, le→leb, some-injective, arith,
}
use ticker_cash.Bytes.{Bytes}
use ticker_cash.External.{External}
use ticker_cash.Statement.{decode_array, try_array}
use ticker_cash.Tx.Covenant.{table_rows, table_entry}
use ticker_cash.Manifest.{TableRow, expect, pubkey_bytes, table_bytes}
use ticker_cash.Manifest.Rows.{IsTable}

-- One block of 34 bytes in a table.
block_entry :
    (i : ℕ) (front block back : Bytes)
    → length front ≡ i * 34
    → length block ≡ 34
    → table_entry (front ++ (block ++ back)) i ≡ some (take 33 block, get_or block 33 0)
unfolding table_entry
block_entry i front block back hf hb =
    let fits : leb (i * 34 + 34) (length (front ++ (block ++ back))) ≡ true =
      le→leb _ _ (omega (arith, length-append front (block ++ back), length-append block back)) in
    let width : i * 34 + 34 - i * 34 ≡ 34 = omega arith in
    rw
      (
        fits,
        width,
        drop-append_eq (i * 34) front (block ++ back) hf,
        take-append_eq 34 block back hb,
      )
      refl

try_array-some : (n : ℕ) (bytes got : Bytes) → try_array n bytes ≡ some got → length got ≡ n
unfolding try_array
try_array-some n bytes got e = ground arith

module _ (x : External) where
  pub length-decode_array :
      (n : ℕ) (text got : Bytes) → decode_array x n text ≡ some got → length got ≡ n
  unfolding decode_array
  length-decode_array n text got e = decoded (x.hex_decode text) e
    where
      decoded : (o : Option Bytes) → and_then o (try_array n) ≡ some got → length got ≡ n
      decoded none e = cc
      decoded (some bytes) e = try_array-some n bytes got e

  abbrev block : TableRow → Bytes
  block r = expect (pubkey_bytes x r) ++ (r.source ∷ [])

  keyed : (r : TableRow) → pubkey_bytes x r ≢ none → length (expect (pubkey_bytes x r)) ≡ 33
  unfolding pubkey_bytes
  keyed r h = found (decode_array x 33 r.pubkey) h (λ got e. length-decode_array 33 r.pubkey got e)
    where
      found :
          (o : Option Bytes)
          → o ≢ none
          → ((got : Bytes) → o ≡ some got → length got ≡ 33)
          → length (expect o) ≡ 33
      found none h len = absurd (h refl)
      found (some got) h len = len got refl

  -- The bytes of the rows before a row, its own, and those behind it.
  around :
      (table : List TableRow) (i : ℕ) (r : TableRow)
      → All (λ r. length (expect (pubkey_bytes x r)) ≡ 33) table
      → get_elem? table i ≡ some r
      → (front : Bytes) × (back : Bytes) × (table_bytes x table ≡ front ++ (block r ++ back))
        × (length front ≡ i * 34)
  unfolding table_bytes
  around [] i r h e = cc
  around (s ∷ rest) zero r (hs, h) e =
      let same : s ≡ r = some-injective e in
      ([], table_bytes x rest, ap (λ q. block q ++ table_bytes x rest) same, omega arith)
  around (s ∷ rest) (suc i) r (hs, h) e =
      let (front, back, eq, len) = around rest i r h e in
      (
        block s ++ front,
        back,
        ap (λ bytes. block s ++ bytes) eq ∙ sym (append_assoc (block s) front (block r ++ back)),
        omega (
          arith,
          length-append (block s) front,
          length-append (expect (pubkey_bytes x s)) (s.source ∷ []),
          hs,
          len,
        ),
      )

  length-table_bytes :
      (table : List TableRow)
      → All (λ r. length (expect (pubkey_bytes x r)) ≡ 33) table
      → length (table_bytes x table) ≡ 34 * length table
  unfolding table_bytes
  length-table_bytes [] h = omega arith
  length-table_bytes (s ∷ rest) (hs, h) = omega (
    arith,
    length-append (block s) (table_bytes x rest),
    length-append (expect (pubkey_bytes x s)) (s.source ∷ []),
    hs,
    length-table_bytes rest h,
  )

  entry :
      (table : List TableRow) (i : ℕ) (r : TableRow)
      → All (λ r. length (expect (pubkey_bytes x r)) ≡ 33) table
      → get_elem? table i ≡ some r
      → (pubkey_bytes x r ≡ none) ⊎ ((pk : Bytes) × (pubkey_bytes x r ≡ some pk))
      → pubkey_bytes x r ≢ none
      → (pk : Bytes) × (pubkey_bytes x r ≡ some pk)
        × (table_entry (table_bytes x table) i ≡ some (pk, r.source))
  entry table i r all e (inl missing) h = absurd (h missing)
  entry table i r all e (inr (pk, is_pk)) h =
      let (front, back, eq, len) = around table i r all e in
      let key_len : length pk ≡ 33 =
        ap (λ o. length (expect o)) (sym is_pk)
        ∙ All-get_elem? (λ r. length (expect (pubkey_bytes x r)) ≡ 33) table i r all e in
      let block' : Bytes = pk ++ (r.source ∷ []) in
      let same : block r ≡ block' = ap (λ o. expect o ++ (r.source ∷ [])) is_pk in
      let at =
        block_entry i front block' back len (omega (arith, length-append pk (r.source ∷ []))) in
      let key : take 33 block' ≡ pk = take-append_eq 33 pk (r.source ∷ []) key_len in
      let source : get_or block' 33 0 ≡ r.source =
        ap (λ n. get_or block' n 0) (sym key_len) ∙ get_or-append pk r.source [] 0 in
      (
        pk,
        is_pk,
        ap (λ bytes. table_entry bytes i) (eq ∙ ap (λ b. front ++ (b ++ back)) same)
            ∙ at
            ∙ ap (λ k. some (k, get_or block' 33 0)) key
            ∙ ap (λ n. some (pk, n)) source,
      )

  keys_of :
      (table : List TableRow)
      → IsTable x table
      → All (λ r. length (expect (pubkey_bytes x r)) ≡ 33) table
  keys_of table t =
      All-of_get_elem? (λ r. length (expect (pubkey_bytes x r)) ≡ 33) table
        (λ i r e. keyed r (t.numbered i r e).2)

  pub length-table_bytes_of_IsTable :
      (table : List TableRow) → IsTable x table → length (table_bytes x table) ≡ 34 * length table
  length-table_bytes_of_IsTable table t = length-table_bytes table (keys_of table t)

  -- The bytes of a valid table read, at each row, as the covenant reads them: there are as many entries
  -- as rows in the manifest, and the entry of a row is its public key and its source.
  pub table_entry-table_bytes :
      (table : List TableRow) (i : ℕ) (r : TableRow)
      → IsTable x table
      → get_elem? table i ≡ some r
      → (table_rows (table_bytes x table) ≡ length table)
        × ((pk : Bytes) × (pubkey_bytes x r ≡ some pk)
            × (table_entry (table_bytes x table) i ≡ some (pk, r.source)))
  unfolding table_rows
  table_entry-table_bytes table i r t e =
      let all = keys_of table t in
      (
        omega (arith, length-table_bytes table all),
        entry table i r all e (Option-cases (pubkey_bytes x r)) (t.numbered i r e).2,
      )
