-- ===== src/Daemon/Builder/Posted.antt =====
-- When the builder posts, and what it posts.
use ticker_cash.Prelude.{
  ℕ, ◌*◌, ◌%◌, ◌≤◌, ◌<◌, ◌≡◌, sym, ap, ◌∙◌, subst, not, ◌&&◌, Option, none, some, List, length, leb,
  ltb, if◌then◌else◌, All, Any, ◌⊎◌, inl, inr, Result, ok, err, refuse_if-eq-ok, ok-injective,
  some-injective, not-eq-false, Bool-cases, Result-cases, arith,
}
use ticker_cash.Bytes.{bytes_eq, u32_mod}
use ticker_cash.Bytes.Laws.{bytes_eq_iff}
use ticker_cash.Text.{Text}
use ticker_cash.Constants.{quorum, max_recycle_per_update}
use ticker_cash.External.{External}
use ticker_cash.Commit.Clock.{current_minute}
use ticker_cash.Statement.{Statement}
use ticker_cash.Manifest.{TableRow, Manifest, table_bytes, table_hash_bytes}
use ticker_cash.Keyfile.{KeyMaterial, KeyFileError}
use ticker_cash.Tx.Covenant.{Artifacts}
use ticker_cash.Tx.Build.Types.{HeadUtxo, TickerUtxo, P2pkhInput, BuiltTx}
use ticker_cash.Tx.Build.Sign.{Outcome}
use ticker_cash.Tx.Build.Update.{build_update}
use ticker_cash.Daemon.{Failure, Server}
use ticker_cash.Daemon.Chain.{find_head, find_recyclable_tickers}
use ticker_cash.Daemon.Builder.{
  Answer, signed, post_at_sec, collect, ready, find_topups, post, post_update, build_once,
}
use ticker_cash.Daemon.Builder.Collect.{IsSignedBy, collect-All}

chosen :
    (start ts : ℕ) (got : List Statement) (rows second : ℕ) (statements : List Statement)
    → (if leb start ts
        then none
        else if ltb (length got) quorum
        then none
        else if ltb (length got) rows && ltb second post_at_sec
        then none
        else some got)
      ≡ some statements
    → (got ≡ statements)
      × (ts < start)
      × (quorum ≤ length got)
      × ((rows ≤ length got) ⊎ (post_at_sec ≤ second))
chosen start ts got rows second statements e = (
  ground arith,
  ground arith,
  ground arith,
  elim (Bool-cases (ltb (length got) rows)) [
    | inl few ↦ inr (ground arith)
    | inr all ↦ inl (ground arith)
  ],
)

module _ (x : External) where
  -- The head's table is the manifest's, its minute is before this one, and there are statements of a
  -- quorum, and of every row unless twenty seconds have gone.
  abbrev pub IsReady : Manifest → (now : ℕ) → HeadUtxo → List Statement → Type 0
  IsReady m now head statements =
      (head.commit.table_hash ≡ table_hash_bytes x m)
      × (head.commit.snapshot.ts < current_minute now * 60 % u32_mod)
      × (quorum ≤ length statements)
      × ((length m.table ≤ length statements) ⊎ (post_at_sec ≤ now % 60))

  ready-IsReady :
      (m : Manifest) (answer : TableRow → Answer) (now : ℕ) (head : HeadUtxo)
      (statements : List Statement)
      → ready x m answer now head ≡ ok (some statements)
      → (statements ≡ collect x answer (current_minute now) m.table) × IsReady m now head statements
  unfolding ready
  ready-IsReady m answer now head statements e =
      let (same, e1) =
        refuse_if-eq-ok (not (bytes_eq head.commit.table_hash (table_hash_bytes x m))) _ _ e in
      let got = collect x answer (current_minute now) m.table in
      let (given, late, enough, waited) =
        chosen (current_minute now * 60 % u32_mod) head.commit.snapshot.ts got (length m.table)
          (now % 60) statements (ok-injective e1) in
      let hash =
        (bytes_eq_iff head.commit.table_hash (table_hash_bytes x m)).0 (not-eq-false _ same) in
      (sym given, (hash, late, rw (← given) enough, rw (← given) waited))

  module _ (a : Artifacts) (fuel : ℕ) (server : Server) (m : Manifest) where
    post-eq-ok :
        (o : Outcome BuiltTx) (built : BuiltTx) (txid : Text)
        → post x a fuel server o ≡ some (ok (built, txid))
        → (o ≡ some (ok built)) × (server.broadcast_raw built.raw ≡ ok txid)
    unfolding post
    post-eq-ok none built txid e = cc
    post-eq-ok (some (err bad)) built txid e = cc
    post-eq-ok (some (ok b)) built txid e = elim (Result-cases (server.broadcast_raw b.raw)) [
      | inl (id, sent) ↦
          let pair = ok-injective (some-injective (rw (sent, post) at e)) in
          let same : b ≡ built = ap (λ p. p.0) pair in
          (
            ap (λ b. some (ok b)) same,
            ap (λ b. server.broadcast_raw (BuiltTx.raw b)) (sym same)
                ∙ sent
                ∙ ap (λ p. ok (p.1)) pair,
          )
      | inr (bad, lost) ↦ let e' = rw (lost, post) at e in absurd (cc)
    ]

    posted_of :
        (o : Option (Result Failure (BuiltTx × Text))) (built : BuiltTx) (txid : Text)
        → elim o [
          | none ↦ none
          | some (err e) ↦ some (err e)
          | some (ok posted) ↦ some (ok (some posted))
        ]
          ≡ some (ok (some (built, txid)))
        → o ≡ some (ok (built, txid))
    posted_of none built txid e = cc
    posted_of (some (err bad)) built txid e = cc
    posted_of (some (ok p)) built txid e = cc

    -- What is built, and from what.
    abbrev pub IsBuilt :
        Result KeyFileError KeyMaterial → Option ℕ → HeadUtxo → List Statement → BuiltTx → Type 0
    IsBuilt operator topup_sats head statements built =
        (mtp : ℕ) × (recycled : List TickerUtxo) × (topups : List P2pkhInput)
        × (server.median_time_past ≡ ok mtp)
        × (find_recyclable_tickers x a server m mtp max_recycle_per_update ≡ ok recycled)
        × (find_topups x server operator topup_sats ≡ ok topups)
        × (build_update x a fuel head (table_bytes x m.table) statements recycled topups
            ≡ some (ok built))

    post_update-IsBuilt :
        (operator : Result KeyFileError KeyMaterial) (topup_sats : Option ℕ) (head : HeadUtxo)
        (statements : List Statement) (built : BuiltTx) (txid : Text)
        → post_update x a fuel server m operator topup_sats head statements
          ≡ some (ok (built, txid))
        → IsBuilt operator topup_sats head statements built
          × (server.broadcast_raw built.raw ≡ ok txid)
    unfolding post_update
    post_update-IsBuilt operator topup_sats head statements built txid e =
        elim (Result-cases server.median_time_past) [
          | inr (bad, failed) ↦ let e' = rw (failed, post_update) at e in absurd (cc)
          | inl (mtp, is_mtp) ↦
              elim (Result-cases
                (find_recyclable_tickers x a server m mtp max_recycle_per_update)) [
                  | inr (bad, failed) ↦
                      let e' = rw (failed, post_update) at (rw (is_mtp, post_update) at e) in
                      absurd (cc)
                  | inl (recycled, found) ↦
                      elim (Result-cases (find_topups x server operator topup_sats)) [
                        | inr (bad, failed) ↦
                            let e' =
                              rw (failed, post_update) at
                                (rw (found, post_update) at (rw (is_mtp, post_update) at e)) in
                            absurd (cc)
                        | inl (topups, paid) ↦
                            let e' =
                              rw (paid, post_update) at
                                (rw (found, post_update) at (rw (is_mtp, post_update) at e)) in
                            let (is_built, sent) =
                              post-eq-ok
                                (build_update x a fuel head (table_bytes x m.table) statements
                                  recycled topups)
                                built txid e' in
                            ((mtp, recycled, topups, is_mtp, found, paid, is_built), sent)
                      ]
                ]
        ]

    -- Where `build_once` posts: the head that it found has the manifest's table and an earlier minute; the
    -- statements are what `collect` accepts for the current minute, each the answer of a row of the
    -- manifest, of its exchange, for this minute and signed by its key; they are seven at least, and of
    -- every row before the twentieth second; and what is broadcast is what `build_update` makes of the
    -- head, the manifest's table, these statements, the Tickers that are due and the top-ups.
    pub build_once_posts :
        (answer : TableRow → Answer) (operator : Result KeyFileError KeyMaterial)
        (topup_sats : Option ℕ) (now : ℕ) (built : BuiltTx) (txid : Text)
        → build_once x a fuel server m answer operator topup_sats now
          ≡ some (ok (some (built, txid)))
        → (head : HeadUtxo) × (statements : List Statement) × (find_head x server m
            ≡ ok (some head))
          × (statements ≡ collect x answer (current_minute now) m.table)
          × All
              (λ st.
                Any
                  (λ row. (answer row ≡ signed st) × IsSignedBy x (current_minute now) st row)
                  m.table)
              statements
          × IsReady m now head statements
          × IsBuilt operator topup_sats head statements built
          × (server.broadcast_raw built.raw ≡ ok txid)
    unfolding build_once
    build_once_posts answer operator topup_sats now built txid e =
        elim (Result-cases (find_head x server m)) [
          | inr (bad, failed) ↦ let e' = rw (failed, build_once) at e in absurd (cc)
          | inl (none, found) ↦ let e' = rw (found, build_once) at e in absurd (cc)
          | inl (some head, found) ↦
              let e1 = rw (found, build_once) at e in
              elim (Result-cases (ready x m answer now head)) [
                | inr (bad, failed) ↦ let e' = rw (failed, build_once) at e1 in absurd (cc)
                | inl (none, waits) ↦ let e' = rw (waits, build_once) at e1 in absurd (cc)
                | inl (some statements, is_ready) ↦
                    let (given, ready_now) = ready-IsReady m answer now head statements is_ready in
                    let (is_built, sent) =
                      post_update-IsBuilt operator topup_sats head statements built txid (
                        posted_of
                          (post_update x a fuel server m operator topup_sats head statements) built
                          txid (rw (is_ready, build_once) at e1)) in
                    (
                      head,
                      statements,
                      found,
                      given,
                      subst
                          (All (λ st.
                            Any
                              (λ row.
                                (answer row ≡ signed st) × IsSignedBy x (current_minute now) st row)
                              m.table))
                          (sym given) (collect-All x answer (current_minute now) m.table),
                      ready_now,
                      is_built,
                      sent,
                    )
              ]
        ]
