-- ===== src/Daemon/Rotate/Written.antt =====
-- What a rotation of the table writes, and that the head carries it.
use ticker_cash.Prelude.{
  ℕ, ◌^◌, ◌<◌, ◌≡◌, sym, ap, ◌∙◌, subst, false, not, Option, none, some, List, [], ◌∷◌, ◌++◌,
  length, take, reverse, ◌==◌, Result, ok, err, >>=-eq-ok, refuse_if-eq-ok, ok-injective,
  some-injective, Bool-cases, inl, inr, arith,
}
use ticker_cash.Bytes.{Bytes, bytes_eq, u64_mod}
use ticker_cash.Crypto.Hash.{hash160}
use ticker_cash.Commit.HeadCommit
use ticker_cash.Commit.RoundTrip.{decode-with_hash}
use ticker_cash.Daemon.Chain.Head.{find_head-decodes}
use ticker_cash.Tx.Types.{Output}
use ticker_cash.External.{External}
use ticker_cash.Crypto.Schnorr.Verify.{CurveLaws}
use ticker_cash.Statement.{Approval}
use ticker_cash.Manifest.{
  TableRow, Manifest, ManifestError, validate, validate_rows, table_bytes, table_hash_bytes,
  set_table,
}
use ticker_cash.Manifest.Valid.{set_table_valid}
use ticker_cash.Tx.Covenant.{Artifacts, oracle_lock, table_hash}
use ticker_cash.Tx.Build.Types.{HeadUtxo, BuiltTx}
use ticker_cash.Tx.Build.Sign.{Outcome}
use ticker_cash.Tx.Build.Rotate.{build_rotate}
use ticker_cash.Tx.Build.Rotate.Built.{build_rotate-IsRotation}
use ticker_cash.Daemon.{Server}
use ticker_cash.Daemon.Chain.{answered, find_head}
use ticker_cash.Daemon.Rotate.{
  Plan, RotateError, Rotated, with_rows, with_failure, send, send_built, rewritten, change_table,
  plan, rotate,
}

with_rows-eq-ok : {A : Type 0} (r : Result ManifestError A) (v : A) → with_rows r ≡ ok v → r ≡ ok v
with_rows-eq-ok (ok a) v e = ap ok (ok-injective e)
with_rows-eq-ok (err f) v e = cc

send-eq-ok :
    (server : Server) (rewrite : Result RotateError (Option Manifest)) (built : BuiltTx)
    (r : Rotated)
    → send server false rewrite built ≡ ok r
    → (rewrite ≡ ok r.manifest) × (r.built ≡ built)
send-eq-ok server rewrite built r e =
    let (txid, sent, e1) =
      >>=-eq-ok (with_failure (answered (server.broadcast_raw built.raw))) _ e in
    let (manifest, written, e2) = >>=-eq-ok rewrite _ e1 in
    let same = ok-injective e2 in
    (written ∙ ap (λ (q : Rotated). ok q.manifest) same, ap Rotated.built (sym same))

send_built-eq-ok :
    (server : Server) (rewrite : Result RotateError (Option Manifest)) (o : Outcome BuiltTx)
    (r : Rotated)
    → send_built server false rewrite o ≡ some (ok r)
    → (rewrite ≡ ok r.manifest) × (o ≡ some (ok r.built))
send_built-eq-ok server rewrite none r e = cc
send_built-eq-ok server rewrite (some (err f)) r e = cc
send_built-eq-ok server rewrite (some (ok built)) r e =
    let (written, same) = send-eq-ok server rewrite built r (some-injective e) in
    (written, ap (λ b. some (ok b)) (sym same))

module _ (x : External) where
  rewritten-eq-ok :
      (m : Manifest) (rows : List TableRow) (o : Option Manifest)
      → rewritten x m (some rows) ≡ ok o
      → (m' : Manifest) × (set_table x m rows ≡ ok m') × (o ≡ some m')
  rewritten-eq-ok m rows o e =
      let (m', set, e1) = >>=-eq-ok (with_rows (set_table x m rows)) _ e in
      (m', with_rows-eq-ok (set_table x m rows) m' set, sym (ok-injective e1))

  module _ (a : Artifacts) where
    change_table-eq-ok :
        (m : Manifest) (rows : List TableRow) (p : Plan)
        → change_table x a m rows ≡ ok p
        → record {
          next_lock = oracle_lock x a;
          tail = table_hash x (table_bytes x rows);
          rows = some rows;
        }
          ≡ p
    unfolding change_table
    change_table-eq-ok m rows p e =
        let (done, valid, e1) = >>=-eq-ok (with_rows (validate_rows x rows)) _ e in
        let (fresh, e2) =
          refuse_if-eq-ok (bytes_eq (table_hash x (table_bytes x rows)) (table_hash_bytes x m)) _ _
            e1 in
        ok-injective e2

    -- The output of a rotation.
    abbrev head_output : HeadUtxo → (next_lock tail : Bytes) → (value : ℕ) → Output
    head_output head next_lock tail value = record {
      value = value;
      locking_script = next_lock;
      token = some (record {
        category_le = reverse head.category;
        capability = 2;
        commitment = take 17 head.raw ++ tail;
        amount = 0;
      });
    }

    rotate-eq-ok :
        (fuel : ℕ) (server : Server) (m : Manifest) (p : Plan) (approvals : List Approval)
        (head : HeadUtxo) (r : Rotated)
        → find_head x server m ≡ ok (some head)
        → rotate x a fuel server m p approvals false ≡ some (ok r)
        → (rewritten x m p.rows ≡ ok r.manifest)
          × (build_rotate x a fuel head (table_bytes x m.table) p.next_lock p.tail approvals []
              ≡ some (ok r.built))
    unfolding rotate
    rotate-eq-ok fuel server m p approvals head r found e =
        elim (Bool-cases (length approvals == 0)) [
          | inl nothing ↦ absurd (let bad = rw (nothing, rotate) at e in cc)
          | inr some_more ↦
              let e1 = rw (some_more, rotate) at e in
              let e2 = rw found at e1 in
              elim (Bool-cases (not (bytes_eq head.commit.table_hash (table_hash_bytes x m)))) [
                | inl stale ↦ absurd (let bad = rw stale at e2 in cc)
                | inr current ↦
                    send_built-eq-ok server (rewritten x m p.rows) _ r (rw current at e2)
              ]
        ]

    -- Where k256 obeys the laws of the curve, ripemd160 gives 20 bytes, the head's value fits in a u64 and the
    -- transaction is shorter than 2^63 bytes: a rotation to a new table, planned on a valid manifest, writes a
    -- manifest that is valid and has the new rows; the transaction has one output, a minting NFT of the head's
    -- category at the Oracle lock, whose commitment is the first 17 bytes of the old head's and the hash of
    -- that manifest's table; and this commitment decodes to the old head's commitment with that table hash,
    -- which the next poll compares.
    pub rotate_written :
        (laws : CurveLaws x) (hash_len : (b : Bytes) → length (x.ripemd160_digest b) ≡ 20)
        (fuel : ℕ) (server : Server) (m : Manifest) (rows : List TableRow) (p : Plan)
        (approvals : List Approval) (head : HeadUtxo) (r : Rotated)
        → validate x a m ≡ ok tt
        → plan x a m (some rows) none false ≡ ok p
        → find_head x server m ≡ ok (some head)
        → rotate x a fuel server m p approvals false ≡ some (ok r)
        → r.built.size < 2 ^ 63
        → head.value < u64_mod
        → (m' : Manifest) × (r.manifest ≡ some m')
          × (validate x a m' ≡ ok tt)
          × (m'.table ≡ rows)
          × (HeadCommit.decode (take 17 head.raw ++ table_hash_bytes x m')
              ≡ ok (record head.commit { table_hash = table_hash_bytes x m' }))
          × ((value : ℕ) × (r.built.tx.outputs
                ≡ record {
                  value = value;
                  locking_script = oracle_lock x a;
                  token = some (record {
                    category_le = reverse head.category;
                    capability = 2;
                    commitment = take 17 head.raw ++ table_hash_bytes x m';
                    amount = 0;
                  });
                }
                  ∷ []))
    unfolding plan table_hash_bytes table_hash hash160
    rotate_written laws hash_len fuel server m rows p approvals head r valid planned found e small
          rich =
        let same = change_table-eq-ok m rows p planned in
        let (written, is_built) = rotate-eq-ok fuel server m p approvals head r found e in
        let (m', set, is_written) =
          rewritten-eq-ok m rows r.manifest
            (subst (λ (q : Plan). rewritten x m q.rows ≡ ok r.manifest) (sym same) written) in
        let (
          placed,
          value,
          majority,
          (outputs, layout, first, raw, size, fee, paid, dust, capped),
        ) =
          build_rotate-IsRotation x a laws fuel head (table_bytes x m.table) p.next_lock p.tail
            approvals [] r.built is_built small (omega arith) in
        elim (set_table_valid x a m rows valid) [
          | inr (f, refused, bad) ↦ absurd (let clash = sym set ∙ refused in cc)
          | inl (n, accepted, valid', table, hash, is_table) ↦
              let is_n : n ≡ m' = ok-injective (sym accepted ∙ set) in
              let table' : m'.table ≡ rows = ap Manifest.table (sym is_n) ∙ table in
              (
                m',
                is_written,
                subst (λ k. validate x a k ≡ ok tt) is_n valid',
                table',
                decode-with_hash head.raw (table_hash_bytes x m') head.commit
                    (find_head-decodes x server m head found) (hash_len _),
                (
                  value,
                  outputs
                      ∙ ap (λ (q : Plan). head_output head q.next_lock q.tail value ∷ []) (sym same)
                      ∙ ap
                          (λ t.
                            head_output head (oracle_lock x a) (table_hash x (table_bytes x t))
                              value
                            ∷ [])
                          (sym table'),
                ),
              )
        ]
