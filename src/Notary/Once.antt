-- ===== src/Notary/Once.antt =====
-- A notary never signs two statements for one minute.
use ticker_cash.Prelude.{ℕ, ◌*◌, ◌≤◌, ◌<◌, ◌≡◌, some, List, [], length, arith, inl}
use ticker_cash.Bytes.{Bytes, u32_mod}
use ticker_cash.External.{External}
use ticker_cash.Tx.Build.Sort.{Distinct}
use ticker_cash.Notary.{keep, Notary, Attempt, minute_step, load_issued}
use ticker_cash.Notary.Restart.{load_issued-IsIssued, load_issued-All, load_issued_last}
use ticker_cash.Notary.Invariant.{minute_signed, IsNotary, minute_step-IsNotary}

module _ (x : External) (fuel : ℕ) (private_key : Bytes) (source : ℕ) where
  -- The runs of `minute_loop`: minutes that do not go back, whatever the exchange and the clock do, and
  -- restarts, which load the file.
  pub data Run : ℕ → Notary → Type 0 where
    started : Run 0 (record { issued = []; file = [] })
    minute :
        (last seq retries : ℕ) (n n' : Notary) (available : List Attempt)
        → Run last n
        → last ≤ seq
        → seq * 60 < u32_mod
        → minute_step x fuel private_key source n seq retries available ≡ some n'
        → Run seq n'
    restarted :
        (last : ℕ) (n : Notary)
        → Run last n
        → Run last (record { issued = load_issued n.file; file = n.file })

  restarted-IsNotary :
      (last : ℕ) (n : Notary)
      → IsNotary last n
      → IsNotary last (record { issued = load_issued n.file; file = n.file })
  restarted-IsNotary last n h = record {
    map_in_order = load_issued-IsIssued n.file;
    keys_le = load_issued-All last n.file h.file_le;
    file_le = h.file_le;
    last_kept = load_issued_last last n.file h.file_le;
    once = h.once;
  }

  Run-IsNotary : (last : ℕ) (n : Notary) → Run last n → IsNotary last n
  Run-IsNotary _ _ started = record {
    map_in_order = (tt, omega arith);
    keys_le = tt;
    file_le = tt;
    last_kept = inl tt;
    once = λ k. omega arith;
  }
  Run-IsNotary _ _ (restarted last n r) = restarted-IsNotary last n (Run-IsNotary last n r)
  Run-IsNotary _ _ (minute last seq retries n n' available r le fits e) =
      minute_step-IsNotary x fuel private_key source last seq retries n n' available le fits e
        (Run-IsNotary last n r)

  -- However often the fetches fail and are tried again, however many minutes are forgotten from memory,
  -- and however often the notary is stopped and started again on its file, a notary that starts without
  -- statements, whose minutes do not go back and whose file takes every line never writes two
  -- statements for one minute, and keeps at most 2,000 in memory.
  pub Run-once :
      (last : ℕ) (n : Notary)
      → Run last n
      → Distinct minute_signed n.file × (length n.issued ≤ keep)
  Run-once last n r = let h = Run-IsNotary last n r in (h.once, h.map_in_order.1)
