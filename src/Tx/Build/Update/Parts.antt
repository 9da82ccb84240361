-- ===== src/Tx/Build/Update/Parts.antt =====
-- The parts of an update that `build_update` computes: the median, the minute, the unlocking script of
-- the head, the outputs and the locktime (node/core/src/tx/build.rs).
use ticker_cash.Prelude.{
  ℕ, ◌+◌, ◌-◌, ◌/◌, ◌%◌, ◌^◌, ◌≤◌, ◌<◌, ◌≡◌, ◌⊎◌, inl, inr, refl, ap, false, some, List, [], ◌∷◌,
  ◌++◌, length, map, max, reverse, replicate, concat, All, Any, get_elem?-some, length-map,
  le_or_lt, arith,
}
use ticker_cash.Bytes.{Bytes, le_bytes}
use ticker_cash.External.{External}
use ticker_cash.Commit.HeadCommit
use ticker_cash.Commit.Snapshot
use ticker_cash.Statement.{Statement, sig_bytes}
use ticker_cash.Tx.Types.{Input, Output}
use ticker_cash.Tx.Script.{push_data, push_int}
use ticker_cash.Tx.Covenant.{Artifacts, oracle_lock, oracle_redeem, ticker_lock}
use ticker_cash.Tx.Build.Types.{HeadUtxo, TickerUtxo, P2pkhInput, category_le}
use ticker_cash.Tx.Build.Sort.{sort_by_key, length-sort_by_key}
use ticker_cash.Tx.Build.Median.{lower_median}
use ticker_cash.Tx.Build.Median.Rank.{IsLowerMedian, lower_median_iff}
use ticker_cash.Tx.Build.Select.{Placed}
use ticker_cash.Tx.Build.Sign.{p2pkh_placeholder}
use ticker_cash.Tx.Build.Update.{
  latest, unwrap_or, placed_prices, median_of, ts_of, placed_sigs, price_bytes, update_snapshot,
  update_unlock, update_inputs, update_outputs,
}

-- The highest of a start and of the recycle times.
abbrev pub IsHighest : (start : ℕ) → List TickerUtxo → ℕ → Type 0
IsHighest start recycled l =
    (start ≤ l)
    × All (λ t. t.recyclable_at ≤ l) recycled
    × ((l ≡ start) ⊎ Any (λ t. t.recyclable_at ≡ l) recycled)

pub latest-IsHighest :
    (start : ℕ) (recycled : List TickerUtxo) → IsHighest start recycled (latest start recycled)
unfolding latest
latest-IsHighest start [] = (omega arith, tt, inl refl)
latest-IsHighest start (t ∷ rest) =
    let (least, all, one) = latest-IsHighest (max start t.recyclable_at) rest in
    (
      omega arith,
      (omega arith, all),
      elim one [
        | inr later ↦ inr (inr later)
        | inl same ↦ elim (le_or_lt t.recyclable_at start) [
          | inl le ↦ inl (omega arith)
          | inr lt ↦ inr (inl (omega arith))
        ]
      ],
    )

lower_median-some : (prices : List ℕ) → 0 < length prices → (m : ℕ) × (lower_median prices ≡ some m)
unfolding lower_median
lower_median-some prices h =
    let s = sort_by_key (λ p. p) prices in
    let len = length-sort_by_key (λ p. p) prices in
    get_elem?-some s ((length s - 1) / 2) (omega arith)

pub median_of-IsLowerMedian :
    (placed : List (Placed Statement))
    → 0 < length placed
    → IsLowerMedian (map (λ p. p.1.price) placed) (median_of placed)
median_of-IsLowerMedian placed h =
    let (m, e) =
      lower_median-some (placed_prices placed)
        (omega (arith, length-map placed (λ (p : Placed Statement). p.1.price))) in
    rw e ((lower_median_iff (placed_prices placed) m).0 e)

pub ts_of-first :
    (ts : ℕ) (placed : List (Placed Statement))
    → 0 < length placed
    → All (λ p. p.1.ts ≡ ts) placed
    → ts_of placed ≡ ts
ts_of-first ts [] h same = absurd (omega arith)
ts_of-first ts (p ∷ rest) h (same, others) = same

price_bytes-concat :
    (x : External) (a : Artifacts) (placed : List (Placed Statement))
    → price_bytes x a placed ≡ concat (map (λ p. le_bytes 4 p.1.price) placed)
unfolding price_bytes
price_bytes-concat x a [] = refl
price_bytes-concat x a (p ∷ rest) =
    ap (λ b. le_bytes 4 p.1.price ++ b) (price_bytes-concat x a rest)

-- The 17 bytes of the snapshot that an update writes.
abbrev pub snapshot_bytes : HeadUtxo → (median ts k : ℕ) → Bytes
snapshot_bytes head median ts k =
    le_bytes 4 ts
    ++ (le_bytes 4 ((head.commit.snapshot.seq + 1) % 2 ^ 32)
        ++ (le_bytes 4 ((head.commit.snapshot.seq + 1) % 2 ^ 32)
            ++ (le_bytes 4 median ++ (k % 256 ∷ []))))

-- The head, the Tickers that are spent and the top-ups, in this order.
abbrev pub inputs_with : HeadUtxo → Bytes → List TickerUtxo → List P2pkhInput → List Input
inputs_with head unlock recycled topups =
    record { prev = head.outpoint; unlock_script = unlock; sequence = 0xffff_fffe }
    ∷ (map
          (λ t. record {
            prev = t.outpoint;
            unlock_script = push_int (record { negative = false; unsigned_abs = 1 });
            sequence = 0xffff_fffe;
          })
          recycled
        ++ map
            (λ t. record {
              prev = t.outpoint;
              unlock_script = push_data (replicate 65 0) ++ push_data t.public_key;
              sequence = 0xffff_fffe;
            })
            topups)

module _ (x : External) (a : Artifacts) where
  pub update_inputs-inputs_with :
      (head : HeadUtxo) (unlock : Bytes) (recycled : List TickerUtxo) (topups : List P2pkhInput)
      → update_inputs x a head unlock recycled topups ≡ inputs_with head unlock recycled topups
  unfolding update_inputs p2pkh_placeholder
  update_inputs-inputs_with head unlock recycled topups = refl

  placed_sigs-concat :
      (placed : List (Placed Statement))
      → placed_sigs x a placed ≡ concat (map (λ p. unwrap_or (sig_bytes x p.1) []) placed)
  unfolding placed_sigs
  placed_sigs-concat [] = refl
  placed_sigs-concat (p ∷ rest) =
      ap (λ b. unwrap_or (sig_bytes x p.1) [] ++ b) (placed_sigs-concat rest)

  -- The pushes of the covenant's `update`: the median, the signatures, the prices and the rows of the
  -- statements, the minute, the table, the selector 0 and the redeem script.
  abbrev pub update_pushes : Bytes → List (Placed Statement) → (median ts : ℕ) → Bytes
  update_pushes table placed median ts =
      push_data (le_bytes 4 median)
      ++ (push_data (concat (map (λ p. unwrap_or (sig_bytes x p.1) []) placed))
          ++ (push_data (concat (map (λ p. le_bytes 4 p.1.price) placed))
              ++ (push_data (map (λ p. p.0) placed)
                  ++ (push_data (le_bytes 4 ts)
                      ++ (push_data table
                          ++ (push_int (record { negative = false; unsigned_abs = 0 })
                              ++ push_data (oracle_redeem a)))))))

  pub update_unlock-update_pushes :
      (table : Bytes) (placed : List (Placed Statement))
      → update_unlock x a table placed
        ≡ update_pushes table placed (median_of placed) (ts_of placed)
  unfolding update_unlock
  update_unlock-update_pushes table placed =
      rw (placed_sigs-concat placed, price_bytes-concat x a placed) refl

  -- A Ticker with a snapshot.
  abbrev pub ticker_output : HeadUtxo → Bytes → Output
  ticker_output head snapshot = record {
    value = 792;
    locking_script = ticker_lock a;
    token = some (record {
      category_le = reverse head.category;
      capability = 0;
      commitment = snapshot;
      amount = 0;
    });
  }

  -- The head with a snapshot, at the Oracle lock, and two Tickers.
  abbrev pub outputs_with : HeadUtxo → (value : ℕ) → Bytes → List Output
  outputs_with head value snapshot =
      record {
        value = value;
        locking_script = oracle_lock x a;
        token = some (record {
          category_le = reverse head.category;
          capability = 2;
          commitment = snapshot ++ head.commit.table_hash;
          amount = 0;
        });
      }
      ∷ ticker_output head snapshot
      ∷ ticker_output head snapshot
      ∷ []

  pub update_outputs-outputs_with :
      (head : HeadUtxo) (placed : List (Placed Statement)) (value : ℕ)
      → update_outputs x a head (update_snapshot head placed) value
        ≡ outputs_with head value
            (snapshot_bytes head (median_of placed) (ts_of placed) (length placed))
  unfolding update_outputs update_snapshot HeadCommit.encode Snapshot.encode category_le
  update_outputs-outputs_with head placed value = refl
