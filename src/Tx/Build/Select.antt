-- ===== src/Tx/Build/Select.antt =====
-- node/core/src/tx/build.rs: which statements and approvals a transaction carries, each at its row.
pub mod Placed
pub mod Approvals
use mathlib.Core.Option
use ticker_cash.Prelude.{
  ℕ, zero, suc, ◌+◌, ◌*◌, ◌-◌, ◌%◌, Bool, true, false, ◌&&◌, ◌||◌, not, Option, none, some, List,
  [], ◌∷◌, ◌++◌, length, ◌==◌, leb, ltb, if◌then◌else◌, Result, ok, err, ◌>>=◌, ◌>>◌, ok_or,
  refuse_if, count,
}
use ticker_cash.Bytes.{Bytes, bytes_eq}
use ticker_cash.Constants.{quorum, max_rows, table_entry_len}
use ticker_cash.External.{External}
use ticker_cash.Commit.Types.{HeadCommit, Snapshot}
use ticker_cash.Statement
use ticker_cash.Statement.{Statement, Approval}
use ticker_cash.Tx.Covenant.{table_rows, table_hash, table_entry}
use ticker_cash.Tx.Build.Types.{
  BuildError, too_few_statements, mixed_timestamp, stale_timestamp, no_row, duplicate_row,
  wrong_table_hash, wrong_table_rows, not_majority, bad_approval, HeadUtxo,
}
use ticker_cash.Tx.Build.Sort.{sort_by_key}

-- The first of the `rows_left` rows from `row` on that passes.
unfoldable pub find_row : (ℕ → Bool) → (row rows_left : ℕ) → Option ℕ
find_row test row zero = none
find_row test row (suc rows_left) =
    let later = find_row test (suc row) rows_left in if test row then some row else later

-- A placed statement or signature: its row and itself.
abbrev pub Placed : Type 0 → Type 0
Placed A = ℕ × A

abbrev pub row_of : {A : Type 0} → Placed A → ℕ
row_of p = p.0

-- `placed.iter().any(|(pr, _)| *pr == r)`
unfoldable pub has_row : {A : Type 0} → List (Placed A) → ℕ → Bool
has_row [] r = false
has_row (p ∷ rest) r = row_of p == r || has_row rest r

-- `statements[0].ts`, read only behind the quorum.
unfoldable pub first_ts : List Statement → ℕ
first_ts [] = 0
first_ts (s ∷ rest) = s.ts

-- The test of the search for an approval's row.
unfoldable pub row_has_key : Bytes → Bytes → ℕ → Bool
row_has_key table pk row = elim (table_entry table row) [
  | none ↦ false
  | some entry ↦ bytes_eq entry.0 pk
]

module _ (x : External) where
  unfoldable pub check_table : (table table_hash_on_chain : Bytes) → Result BuildError ℕ
  check_table table table_hash_on_chain = do
    let n = table_rows table
    refuse_if (n == 0 || (ltb max_rows n || not (length table % table_entry_len == 0)))
        (wrong_table_rows n)
    refuse_if (not (bytes_eq (table_hash x table) table_hash_on_chain)) wrong_table_hash
    ok n

  -- The test of the loop over the rows: the row reads the statement's source and its key signed it.
  unfoldable pub row_signs : Bytes → Statement → ℕ → Bool
  row_signs table s row = elim (table_entry table row) [
    | none ↦ false
    | some entry ↦ entry.1 == s.source && Statement.verify x s entry.0
  ]

  -- The loop over the statements, from what is placed so far.
  unfoldable pub place_statements :
      (table : Bytes) (n ts : ℕ)
      → List Statement
      → List (Placed Statement)
      → Result BuildError (List (Placed Statement))
  place_statements table n ts [] placed = ok placed
  place_statements table n ts (s ∷ rest) placed = do
    refuse_if (not (s.ts == ts)) (mixed_timestamp ts s.ts)
    r ← ok_or (find_row (row_signs table s) 0 n) (no_row s.source)
    refuse_if (has_row placed r) (duplicate_row r)
    place_statements table n ts rest (placed ++ ((r, s) ∷ []))

  unfoldable pub select_statements :
      HeadUtxo → Bytes → List Statement → Result BuildError (List (Placed Statement))
  select_statements head table statements = do
    n ← check_table table head.commit.table_hash
    refuse_if (ltb (length statements) quorum) (too_few_statements (length statements))
    let ts = first_ts statements
    refuse_if (leb ts head.commit.snapshot.ts) (stale_timestamp ts head.commit.snapshot.ts)
    placed ← place_statements table n ts statements []
    ok (sort_by_key row_of placed)

  -- One round of the loop over the approvals: the row and the signature. The source decodes the
  -- signature again when it pushes it; `verify_approval` has refused one that does not decode.
  unfoldable pub place_approval :
      (table table_hash_on_chain cat_vm next_lock tail : Bytes) (n : ℕ)
      → Approval
      → List (Placed Bytes)
      → Result BuildError (Placed Bytes)
  place_approval table table_hash_on_chain cat_vm next_lock tail n a placed = do
    pk ← ok_or (Statement.approval_pubkey_bytes x a) (bad_approval a.pubkey)
    row ← ok_or (find_row (row_has_key table pk) 0 n) (bad_approval a.pubkey)
    refuse_if (not (Statement.verify_approval x a cat_vm table_hash_on_chain next_lock tail))
        (bad_approval a.pubkey)
    refuse_if (has_row placed row) (duplicate_row row)
    sig ← ok_or (Statement.approval_sig_bytes x a) (bad_approval a.pubkey)
    ok (row, sig)

  unfoldable pub place_all_approvals :
      (table table_hash_on_chain cat_vm next_lock tail : Bytes) (n : ℕ)
      → List Approval
      → List (Placed Bytes)
      → Result BuildError (List (Placed Bytes))
  place_all_approvals table table_hash_on_chain cat_vm next_lock tail n [] placed = ok placed
  place_all_approvals table table_hash_on_chain cat_vm next_lock tail n (a ∷ rest) placed = do
    p ← place_approval table table_hash_on_chain cat_vm next_lock tail n a placed
    place_all_approvals table table_hash_on_chain cat_vm next_lock tail n rest (placed ++ (p ∷ []))

  unfoldable pub place_approvals :
      (table table_hash_on_chain cat_vm next_lock tail : Bytes)
      → List Approval
      → Result BuildError (List (Placed Bytes))
  place_approvals table table_hash_on_chain cat_vm next_lock tail approvals = do
    n ← check_table table table_hash_on_chain
    placed ← place_all_approvals table table_hash_on_chain cat_vm next_lock tail n approvals []
    refuse_if (leb (length placed * 2) n) (not_majority (length placed) n)
    ok (sort_by_key row_of placed)
