-- ===== src/Tx/Build/Select/Approvals.antt =====
-- The approvals that `place_approvals` returns: a majority of the rows, each with its own signature.
use ticker_cash.Prelude.{
  ℕ, ◌+◌, ◌*◌, ◌<◌, ◌≡◌, ap, subst, Bool, true, false, not, Option, none, some, List, [], ◌∷◌, ◌++◌,
  length, leb, if◌then◌else◌, Result, ok, err, ok_or, >>=-eq-ok, refuse_if-eq-ok, ok_or-eq-ok,
  ok-injective, All, All-append, length-append, arith, not-eq-false,
}
use ticker_cash.Bytes.{Bytes, bytes_eq}
use ticker_cash.Bytes.Laws.{bytes_eq_iff}
use ticker_cash.External.{External}
use ticker_cash.Crypto.Hash.{sha256}
use ticker_cash.Crypto.Schnorr.{KeyError, schnorr_verify}
use ticker_cash.Statement
use ticker_cash.Statement.{Approval, unwrap_or_false, names_rotation, approval_message}
use ticker_cash.Tx.Covenant.{table_rows, table_hash, table_entry}
use ticker_cash.Tx.Build.Types.{bad_approval}
use ticker_cash.Tx.Build.Sort.{
  sort_by_key, Ascending, Distinct, All-sort_by_key, length-sort_by_key,
}
use ticker_cash.Tx.Build.Select.{
  find_row, Placed, row_of, has_row, check_table, row_has_key, place_approval, place_all_approvals,
  place_approvals,
}
use ticker_cash.Tx.Build.Select.Placed.{
  find_row-eq-some, Distinct-push, Ascending-sort_by_key, check_table_sound,
}

module _ (x : External) (table hash cat_vm next_lock tail : Bytes) where
  -- The row is in the table, and its key made the signature over the approval message.
  abbrev pub IsApproved : Placed Bytes → Type 0
  IsApproved p =
      (row_of p < table_rows table)
      × ((pk : Bytes) × (source : ℕ) × (table_entry table (row_of p) ≡ some (pk, source))
          × (schnorr_verify x p.1 pk (sha256 x (approval_message cat_vm hash next_lock tail))
              ≡ ok true))

  entry_has_key :
      (pk : Bytes) (o : Option (Bytes × ℕ))
      → elim o [ none ↦ false | some entry ↦ bytes_eq entry.0 pk ] ≡ true
      → (source : ℕ) × (o ≡ some (pk, source))
  entry_has_key pk none h = cc
  entry_has_key pk (some (key, source)) h =
      (source, ap (λ key. some (key, source)) ((bytes_eq_iff key pk).0 h))

  row_has_key-entry :
      (pk : Bytes) (row : ℕ)
      → row_has_key table pk row ≡ true
      → (source : ℕ) × (table_entry table row ≡ some (pk, source))
  unfolding row_has_key
  row_has_key-entry pk row h = entry_has_key pk (table_entry table row) h

  signature_of :
      (named : Bool) (m : Result KeyError Bool)
      → (if not named then false else unwrap_or_false m) ≡ true
      → m ≡ ok true
  signature_of named (ok b) h = ground arith
  signature_of named (err e) h = ground arith

  verify_approval-signature :
      (a : Approval) (sig pk : Bytes)
      → Statement.approval_sig_bytes x a ≡ some sig
      → Statement.approval_pubkey_bytes x a ≡ some pk
      → Statement.verify_approval x a cat_vm hash next_lock tail ≡ true
      → schnorr_verify x sig pk (sha256 x (approval_message cat_vm hash next_lock tail)) ≡ ok true
  unfolding Statement.verify_approval
  verify_approval-signature a sig pk has_sig has_pk h =
      let accepted = rw (has_sig, has_pk, Statement.verify_approval) at h in
      signature_of (names_rotation x a hash next_lock tail)
        (schnorr_verify x sig pk (sha256 x (approval_message cat_vm hash next_lock tail))) accepted

  place_approval-IsApproved :
      (a : Approval) (placed : List (Placed Bytes)) (p : Placed Bytes)
      → place_approval x table hash cat_vm next_lock tail (table_rows table) a placed ≡ ok p
      → IsApproved p × (has_row placed (row_of p) ≡ false)
  unfolding place_approval
  place_approval-IsApproved a placed p e =
      let (pk, has_pk, e1) =
        >>=-eq-ok (ok_or (Statement.approval_pubkey_bytes x a) (bad_approval a.pubkey)) _ e in
      let (row, found, e2) =
        >>=-eq-ok
          (ok_or (find_row (row_has_key table pk) 0 (table_rows table)) (bad_approval a.pubkey)) _
          e1 in
      let (verified, e3) =
        refuse_if-eq-ok (not (Statement.verify_approval x a cat_vm hash next_lock tail)) _ _ e2 in
      let (fresh, e4) = refuse_if-eq-ok (has_row placed row) _ _ e3 in
      let (sig, has_sig, e5) =
        >>=-eq-ok (ok_or (Statement.approval_sig_bytes x a) (bad_approval a.pubkey)) _ e4 in
      let (lt, has_key) =
        find_row-eq-some (row_has_key table pk) 0 (table_rows table) row (ok_or-eq-ok _ _ found) in
      let (source, entry) = row_has_key-entry pk row has_key in
      subst (λ p. IsApproved p × (has_row placed (row_of p) ≡ false)) (ok-injective e5)
        (
          (
            omega (arith, lt),
            (
              pk,
              source,
              entry,
              verify_approval-signature a sig pk (ok_or-eq-ok _ _ has_sig) (ok_or-eq-ok _ _ has_pk)
                  (not-eq-false (Statement.verify_approval x a cat_vm hash next_lock tail)
                    verified),
            ),
          ),
          fresh,
        )

  place_all_approvals-placed :
      (rest : List Approval) (placed all : List (Placed Bytes))
      → place_all_approvals x table hash cat_vm next_lock tail (table_rows table) rest placed
        ≡ ok all
      → All IsApproved placed
      → Distinct row_of placed
      → All IsApproved all × Distinct row_of all × (length all ≡ length placed + length rest)
  unfolding place_all_approvals
  place_all_approvals-placed [] placed all e approved d =
      let same = ok-injective e in
      (
        subst (All IsApproved) same approved,
        subst (Distinct row_of) same d,
        rw (← same) (omega arith),
      )
  place_all_approvals-placed (a ∷ rest) placed all e approved d =
      let (p, is_placed, e1) =
        >>=-eq-ok (place_approval x table hash cat_vm next_lock tail (table_rows table) a placed) _
          e in
      let (h, fresh) = place_approval-IsApproved a placed p is_placed in
      let (approved', d', len) =
        place_all_approvals-placed rest (placed ++ (p ∷ [])) all e1
          (All-append IsApproved placed (p ∷ []) approved (h, tt))
          (Distinct-push placed (row_of p) p.1 fresh d) in
      (approved', d', omega (arith, len, length-append placed (p ∷ [])))

  -- Where `place_approvals` succeeds: the table hashes to the commitment; the rows increase; every
  -- signature is by the key of its row over the approval message of this rotation; there is one for
  -- each approval given; and twice their number is above the number of rows of the table.
  pub place_approvals_sound :
      (approvals : List Approval) (placed : List (Placed Bytes))
      → place_approvals x table hash cat_vm next_lock tail approvals ≡ ok placed
      → (table_hash x table ≡ hash)
        × Ascending row_of placed
        × All IsApproved placed
        × (length placed ≡ length approvals)
        × (table_rows table < length placed * 2)
  unfolding place_approvals
  place_approvals_sound approvals placed e =
      let (n, checked, e1) = >>=-eq-ok (check_table x table hash) _ e in
      let (all, place, e2) =
        >>=-eq-ok (place_all_approvals x table hash cat_vm next_lock tail n approvals []) _ e1 in
      let (majority, e3) = refuse_if-eq-ok (leb (length all * 2) n) _ _ e2 in
      let is_sorted : sort_by_key row_of all ≡ placed = ok-injective e3 in
      let (rows, hashed, some_row, few_rows, whole) = check_table_sound x table hash n checked in
      let place' =
        subst (λ n. place_all_approvals x table hash cat_vm next_lock tail n approvals [] ≡ ok all)
          rows place in
      let (approved, d, len) =
        place_all_approvals-placed approvals [] all place' tt (λ k. omega arith) in
      let sorted_len = length-sort_by_key row_of all in
      subst
        (λ placed.
          (table_hash x table ≡ hash)
          × Ascending row_of placed
          × All IsApproved placed
          × (length placed ≡ length approvals)
          × (table_rows table < length placed * 2))
        is_sorted
        (
          hashed,
          Ascending-sort_by_key all d,
          All-sort_by_key row_of IsApproved all approved,
          omega arith,
          ground arith,
        )
