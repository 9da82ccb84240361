-- ===== src/Daemon/Builder/Final.antt =====
-- A posted update can be mined at once.
use ticker_cash.Prelude.{
  ℕ, ◌+◌, ◌*◌, ◌-◌, ◌%◌, ◌≤◌, ◌<◌, ◌≡◌, sym, ap, ◌∙◌, some, Option, List, [], ◌∷◌, length, Result,
  ok, All, All-imp, ok-injective, arith,
}
use ticker_cash.Bytes.{Bytes, u32_mod}
use ticker_cash.Text.{Text}
use ticker_cash.Constants.{seq_ahead_secs, max_recycle_per_update}
use ticker_cash.External.{External}
use ticker_cash.Crypto.Schnorr.Verify.{CurveLaws}
use ticker_cash.Commit.Clock.{current_minute}
use ticker_cash.Statement.{Statement}
use ticker_cash.Manifest.{TableRow, Manifest, table_bytes}
use ticker_cash.Keyfile.{KeyMaterial, KeyFileError}
use ticker_cash.Tx.Types.{Tx}
use ticker_cash.Tx.Covenant.{Artifacts}
use ticker_cash.Tx.Build.Types.{TickerUtxo, BuiltTx}
use ticker_cash.Tx.Build.Select.{Placed, first_ts}
use ticker_cash.Tx.Build.Select.Placed.{IsSigned}
use ticker_cash.Tx.Build.Update.{update_locktime, ts_of}
use ticker_cash.Tx.Build.Update.Locktime.{latest-bounds}
use ticker_cash.Tx.Build.Update.Built.{build_update-locktime}
use ticker_cash.Daemon.{Server}
use ticker_cash.Daemon.Chain.Tickers.{IsDue, find_recyclable_tickers-IsDue}
use ticker_cash.Daemon.Builder.{Answer, build_once}
use ticker_cash.Daemon.Builder.Collect.{first_ts-collect}
use ticker_cash.Daemon.Builder.Posted.{build_once_posts}

-- The locktime stays below a bound that the six hours and the recycle times are below.
update_locktime-lt :
    (ts bound : ℕ) (recycled : List TickerUtxo)
    → ts < bound + seq_ahead_secs
    → 0 < bound
    → bound ≤ u32_mod
    → All (λ t. t.recyclable_at < bound) recycled
    → update_locktime ts recycled < bound
unfolding update_locktime
update_locktime-lt ts bound recycled h pos fits all =
    let (least, each, below) =
      latest-bounds (ts - seq_ahead_secs) bound recycled (omega arith) all in
    omega arith

module _ (x : External) where
  placed_ts :
      (table : Bytes) (ts : ℕ) (placed : List (Placed Statement))
      → All (IsSigned x table ts) placed
      → 0 < length placed
      → ts_of placed ≡ ts
  placed_ts table ts [] h some_left = absurd (omega arith)
  placed_ts table ts (p ∷ rest) (h, hs) some_left = h.1

  -- Where the server's median-time-past fits in 32 bits and the minute is less than six hours ahead of
  -- it: the locktime of the update that `build_once` posts is below the median-time-past, whatever
  -- Tickers it recycles, so that the next block can hold it.
  pub build_once_final :
      (a : Artifacts) (laws : CurveLaws x) (fuel : ℕ) (server : Server) (m : Manifest)
      (answer : TableRow → Answer) (operator : Result KeyFileError KeyMaterial)
      (topup_sats : Option ℕ) (now mtp : ℕ) (built : BuiltTx) (txid : Text)
      → build_once x a fuel server m answer operator topup_sats now ≡ some (ok (some (built, txid)))
      → server.median_time_past ≡ ok mtp
      → 0 < mtp
      → mtp ≤ u32_mod
      → current_minute now * 60 % u32_mod < mtp + seq_ahead_secs
      → Tx.locktime built.tx < mtp
  build_once_final a laws fuel server m answer operator topup_sats now mtp built txid e is_mtp pos
        fits ahead =
      let (
        head,
        statements,
        found,
        given,
        signed,
        ready,
        (mtp', recycled, topups, mtp_ok, due, paid, is_built),
        sent,
      ) =
        build_once_posts x a fuel server m answer operator topup_sats now built txid e in
      let same : mtp' ≡ mtp = ok-injective (sym mtp_ok ∙ is_mtp) in
      let start = current_minute now * 60 % u32_mod in
      let (placed, selection, locktime) =
        build_update-locktime x a laws fuel head (table_bytes x m.table) statements recycled topups
          built is_built in
      let some_left : 0 < length statements = omega (arith, ready.2) in
      let on_time : first_ts statements ≡ start =
        ap first_ts given
        ∙ first_ts-collect x answer (current_minute now) m.table (rw given at some_left) in
      let placed_at : ts_of placed ≡ start =
        placed_ts (table_bytes x m.table) (first_ts statements) placed selection.4
          (omega (arith, selection.7))
        ∙ on_time in
      let bound = update_locktime-lt (ts_of placed) mtp recycled (omega arith) pos fits (
        All-imp (IsDue x a mtp') (λ t. t.recyclable_at < mtp) (λ t d. omega (arith, d.0)) recycled
          (find_recyclable_tickers-IsDue x a server m mtp' max_recycle_per_update recycled due)) in
      omega arith
