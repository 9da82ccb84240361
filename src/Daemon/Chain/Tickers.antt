-- ===== src/Daemon/Chain/Tickers.antt =====
-- Which Tickers `find_recyclable_tickers` returns.
use ticker_cash.Prelude.{
  ℕ, ◌≤◌, ◌<◌, ◌≡◌, refl, sym, subst, Bool, true, false, Option, none, some, List, [], ◌∷◌, ◌++◌,
  length, take, ltb, ltb→lt, ◌⊎◌, inl, inr, Result, ok, err, >>=-eq-ok, ok_or, ok-injective, All,
  All-append, length-take, length-append, min, count, and_then, if◌then◌else◌, zero, suc, ◌+◌,
  All-take, Result-cases, ok_or-eq-ok, ap, ◌∙◌, Option-cases, Bool-cases, arith,
}
use ticker_cash.Bytes.{Bytes}
use ticker_cash.Text.{Text}
use ticker_cash.External.{External}
use ticker_cash.Manifest.{Manifest}
use ticker_cash.Electrum.{ElectrumError, NftCapability, NftBody, Utxo}
use ticker_cash.Commit.Types.{Snapshot, Decoded}
use ticker_cash.Commit.Snapshot
use ticker_cash.Commit.Legacy.{Snapshot26, decode_snapshot26, recyclable26_at}
use ticker_cash.Tx.Covenant.{Artifacts, ticker_lock, ticker26_lock, electrum_scripthash}
use ticker_cash.Tx.Build.Types.{TickerUtxo, ticker_v27, ticker_v26}
use ticker_cash.Tx.Build.Sort.{
  sort_by_key, Ordered, Ordered-sort_by_key, All-sort_by_key, length-sort_by_key,
}
use ticker_cash.Daemon.{bad_hex, Server}
use ticker_cash.Daemon.Chain.{
  nft_in, answered, outpoint, ticker_at, push_due, due_tickers, find_recyclable_tickers,
}

Ordered-take :
    {A : Type 0} (key : A → ℕ) (n : ℕ) (xs : List A) → Ordered key xs → Ordered key (take n xs)
Ordered-take key zero xs h = tt
Ordered-take key (suc n) [] h = tt
Ordered-take key (suc n) (a ∷ rest) (ha, h) =
    (All-take (λ b. key a ≤ key b) n rest ha, Ordered-take key n rest h)

-- The recycle time in a commitment, if it decodes.
abbrev time27 : Decoded Snapshot → Option ℕ
time27 (err e) = none
time27 (ok s) = some (Snapshot.recyclable_at s)

abbrev time26 : Decoded Snapshot26 → Option ℕ
time26 (err e) = none
time26 (ok s) = some (recyclable26_at s)

abbrev time_in : Bool → Bytes → Option ℕ
time_in true raw = time26 (decode_snapshot26 raw)
time_in false raw = time27 (Snapshot.decode raw)

-- A recycle time below the median-time-past.
abbrev pub is_due : ℕ → Option ℕ → Bool
is_due mtp none = false
is_due mtp (some t) = ltb t mtp

answered-eq-ok : {A : Type 0} (r : Result ElectrumError A) {a : A} → answered r ≡ ok a → r ≡ ok a
answered-eq-ok (ok b) h = cc
answered-eq-ok (err e) h = cc

module _ (x : External) (a : Artifacts) where
  -- The recycle time of a listed output, if it is an immutable NFT of the category with a snapshot.
  abbrev pub recycle_time : Text → Bool → Utxo → Option ℕ
  recycle_time category is_legacy u =
      and_then (nft_in category NftCapability.none u.token_data)
        (λ nft. and_then (x.hex_decode (NftBody.commitment nft)) (time_in is_legacy))

  abbrev lock_of : Bool → Bytes
  lock_of true = ticker26_lock a
  lock_of false = ticker_lock a

  -- The Ticker of an output has the time that its commitment says, and the lock it was listed at.
  abbrev IsTicker : Bool → Bytes → Option TickerUtxo → Type 0
  IsTicker is_legacy raw none = time_in is_legacy raw ≡ none
  IsTicker is_legacy raw (some t) =
      (time_in is_legacy raw ≡ some t.recyclable_at) × (t.lock ≡ lock_of is_legacy)

  ticker_at-IsTicker :
      (is_legacy : Bool) (u : Utxo) (raw : Bytes) (t : Option TickerUtxo)
      → ticker_at x a is_legacy u raw ≡ ok t
      → IsTicker is_legacy raw t
  unfolding ticker_at ticker_v27 ticker_v26
  ticker_at-IsTicker true u raw t e = elim (Result-cases (decode_snapshot26 raw)) [
    | inr (bad, refused) ↦
        subst (IsTicker true raw) (ok-injective (rw (refused, ticker_at) at e)) (rw refused refl)
    | inl (snap, decodes) ↦
        let (op, found, e1) = >>=-eq-ok (outpoint x u) _ (rw (decodes, ticker_at) at e) in
        subst (IsTicker true raw) (ok-injective e1) (rw decodes refl, refl)
  ]
  ticker_at-IsTicker false u raw t e = elim (Result-cases (Snapshot.decode raw)) [
    | inr (bad, refused) ↦
        subst (IsTicker false raw) (ok-injective (rw (refused, ticker_at) at e)) (rw refused refl)
    | inl (snap, decodes) ↦
        let (op, found, e1) = >>=-eq-ok (outpoint x u) _ (rw (decodes, ticker_at) at e) in
        subst (IsTicker false raw) (ok-injective e1) (rw decodes refl, refl)
  ]

  -- A Ticker that is due, at one of the two locks.
  abbrev pub IsDue : ℕ → TickerUtxo → Type 0
  IsDue mtp t = (t.recyclable_at < mtp) × ((t.lock ≡ ticker_lock a) ⊎ (t.lock ≡ ticker26_lock a))

  at_lock :
      (is_legacy : Bool) (t : TickerUtxo)
      → t.lock ≡ lock_of is_legacy
      → (t.lock ≡ ticker_lock a) ⊎ (t.lock ≡ ticker26_lock a)
  at_lock true t h = inr h
  at_lock false t h = inl h

  push_due_lem :
      (is_legacy : Bool) (raw : Bytes) (mtp : ℕ) (t : Option TickerUtxo) (later : List TickerUtxo)
      → IsTicker is_legacy raw t
      → All (IsDue mtp) later
      → All (IsDue mtp) (push_due x a mtp t later)
        × (length (push_due x a mtp t later)
            ≡ (if is_due mtp (time_in is_legacy raw) then 1 else 0) + length later)
  push_due_lem is_legacy raw mtp none later h hs = (hs, rw h (omega arith))
  push_due_lem is_legacy raw mtp (some t) later (time, lock) hs =
      elim (Bool-cases (ltb t.recyclable_at mtp)) [
        | inl due ↦ rw (time, due) (((ltb→lt _ _ due, at_lock is_legacy t lock), hs), omega arith)
        | inr early ↦ rw (time, early) (hs, omega arith)
      ]

  due_tickers_lem :
      (category : Text) (is_legacy : Bool) (mtp : ℕ) (unspent : List Utxo) (due : List TickerUtxo)
      → due_tickers x a category is_legacy mtp unspent ≡ ok due
      → All (IsDue mtp) due
        × (length due ≡ count (λ u. is_due mtp (recycle_time category is_legacy u)) unspent)
  unfolding due_tickers
  due_tickers_lem category is_legacy mtp [] due e =
      let same = ok-injective e in (subst (All (IsDue mtp)) same tt, rw (← same) refl)
  due_tickers_lem category is_legacy mtp (u ∷ rest) due e =
      elim (Option-cases (nft_in category NftCapability.none u.token_data)) [
        | inl other ↦
            let (all, counted) =
              due_tickers_lem category is_legacy mtp rest due (rw (other, due_tickers) at e) in
            rw other (all, omega (arith, counted))
        | inr (nft, is_nft) ↦
            let (raw, decoded, e1) =
              >>=-eq-ok (ok_or (x.hex_decode nft.commitment) bad_hex) _
                (rw (is_nft, due_tickers) at e) in
            let (t, is_ticker, e2) = >>=-eq-ok (ticker_at x a is_legacy u raw) _ e1 in
            let (later, more, e3) = >>=-eq-ok (due_tickers x a category is_legacy mtp rest) _ e2 in
            let (all, counted) = due_tickers_lem category is_legacy mtp rest later more in
            let (all', counted') =
              push_due_lem is_legacy raw mtp t later
                (ticker_at-IsTicker is_legacy u raw t is_ticker) all in
            let same = ok-injective e3 in
            (
              subst (All (IsDue mtp)) same all',
              rw (is_nft, ok_or-eq-ok _ _ decoded)
                  (ap (λ ts. length ts) (sym same)
                    ∙ counted'
                    ∙ ap (λ n. (if is_due mtp (time_in is_legacy raw) then 1 else 0) + n) counted),
            )
      ]

  -- The Tickers that are recycled: each is at one of the two Ticker locks and its recycle time is below the
  -- median-time-past, they are in the order of these times, and their number is the number of listed
  -- immutable NFTs of the category whose commitments decode to such a time, but `max` at most.
  pub find_recyclable_tickers-count :
      (server : Server) (m : Manifest) (mtp max : ℕ) (current old : List Utxo)
      (tickers : List TickerUtxo)
      → server.list_unspent (electrum_scripthash x (ticker_lock a)) ≡ ok current
      → server.list_unspent (electrum_scripthash x (ticker26_lock a)) ≡ ok old
      → find_recyclable_tickers x a server m mtp max ≡ ok tickers
      → All (IsDue mtp) tickers
        × Ordered (λ t. TickerUtxo.recyclable_at t) tickers
        × (length tickers
            ≡ min max (
                count (λ u. is_due mtp (recycle_time m.category false u)) current
                + count (λ u. is_due mtp (recycle_time m.category true u)) old))
  unfolding find_recyclable_tickers
  find_recyclable_tickers-count server m mtp max current old tickers lists lists26 e =
      let (due, is_due27, e1) =
        >>=-eq-ok (due_tickers x a m.category false mtp current) _
          (rw (lists, find_recyclable_tickers) at e) in
      let (due26, is_due26, e2) =
        >>=-eq-ok (due_tickers x a m.category true mtp old) _ (rw lists26 at e1) in
      let (all, counted) = due_tickers_lem m.category false mtp current due is_due27 in
      let (all26, counted26) = due_tickers_lem m.category true mtp old due26 is_due26 in
      let key = λ (t : TickerUtxo). t.recyclable_at in
      let sorted = sort_by_key key (due ++ due26) in
      rw (← ok-injective e2) (
        All-take (IsDue mtp) max sorted (
            All-sort_by_key key (IsDue mtp) (due ++ due26)
              (All-append (IsDue mtp) due due26 all all26)),
        Ordered-take key max sorted (Ordered-sort_by_key key (due ++ due26)),
        omega (
          arith,
          length-take max sorted,
          length-sort_by_key key (due ++ due26),
          length-append due due26,
          counted,
          counted26,
        ),
      )

  -- Whatever the server lists, what is recycled is due.
  pub find_recyclable_tickers-IsDue :
      (server : Server) (m : Manifest) (mtp max : ℕ) (tickers : List TickerUtxo)
      → find_recyclable_tickers x a server m mtp max ≡ ok tickers
      → All (IsDue mtp) tickers
  unfolding find_recyclable_tickers
  find_recyclable_tickers-IsDue server m mtp max tickers e =
      let (current, lists, e1) =
        >>=-eq-ok (answered (server.list_unspent (electrum_scripthash x (ticker_lock a)))) _ e in
      let (due, is_due27, e2) = >>=-eq-ok (due_tickers x a m.category false mtp current) _ e1 in
      let (old, lists26, e3) =
        >>=-eq-ok (answered (server.list_unspent (electrum_scripthash x (ticker26_lock a)))) _ e2 in
      (find_recyclable_tickers-count server m mtp max current old tickers (answered-eq-ok _ lists)
        (answered-eq-ok _ lists26) e).0
