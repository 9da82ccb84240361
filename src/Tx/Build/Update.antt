-- ===== src/Tx/Build/Update.antt =====
-- node/core/src/tx/build.rs: `build_update`.
pub mod Locktime
pub mod Parts
pub mod Drafts
pub mod Built
use mathlib.Core.Option
use ticker_cash.Prelude.{
  ℕ, zero, suc, ◌+◌, ◌*◌, ◌-◌, ◌%◌, Bool, false, Option, none, some, List, [], ◌∷◌, ◌++◌, length,
  replicate, map, max, ltb, if◌then◌else◌, Result, ok, err, ◌>>=◌, ◌>>◌, refuse_if,
}
use ticker_cash.Bytes.{Bytes, le_bytes, u32_mod, u64_mod}
use ticker_cash.Constants.{seq_ahead_secs, ticker_sats, tickers_per_update, sequence_timelock}
use ticker_cash.External.{External}
use ticker_cash.Commit.Types.{Snapshot, HeadCommit}
use ticker_cash.Commit.Snapshot
use ticker_cash.Commit.HeadCommit
use ticker_cash.Statement.{Statement, sig_bytes}
use ticker_cash.Tx.Types.{Input, Output, TokenPrefix, Tx, new_tx, minting_capability, no_capability}
use ticker_cash.Tx.Encode.{encode_tx}
use ticker_cash.Tx.Script.{push_data, push_int}
use ticker_cash.Tx.Sighash.{SpentOutput}
use ticker_cash.Tx.Covenant.{Artifacts, oracle_lock, oracle_redeem, ticker_lock}
use ticker_cash.Tx.Build.Types.{
  BuildError, above_fee_cap, insufficient, HeadUtxo, TickerUtxo, P2pkhInput, BuiltTx, finish,
  category_le,
}
use ticker_cash.Tx.Build.Median.{lower_median}
use ticker_cash.Tx.Build.Select.{Placed, row_of, select_statements}
use ticker_cash.Tx.Build.Sign.{
  Outcome, Draft, sign_drafted, fee_cap, add_values, topup_input, topup_source, signers_from,
}

-- The loop over the recycled Tickers.
unfoldable pub latest : ℕ → List TickerUtxo → ℕ
latest lt [] = lt
latest lt (t ∷ rest) = latest (max lt t.recyclable_at) rest

unfoldable pub update_locktime : ℕ → List TickerUtxo → ℕ
update_locktime ts recycled = latest (ts - seq_ahead_secs) recycled % u32_mod

-- `unwrap`, where a case that the callers have excluded would panic.
abbrev pub unwrap_or : {A : Type 0} → Option A → A → A
unwrap_or none d = d
unwrap_or (some a) d = a

abbrev pub placed_prices : List (Placed Statement) → List ℕ
placed_prices placed = map (λ p. p.1.price) placed

abbrev pub median_of : List (Placed Statement) → ℕ
median_of placed = unwrap_or (lower_median (placed_prices placed)) 0

abbrev pub ts_of : List (Placed Statement) → ℕ
ts_of [] = 0
ts_of (p ∷ rest) = p.1.ts

abbrev pub recycled_input : TickerUtxo → Input
recycled_input t = record {
  prev = t.outpoint;
  unlock_script = push_int (record { negative = false; unsigned_abs = 1 });
  sequence = sequence_timelock;
}

abbrev pub token_of : Bytes → ℕ → Bytes → Option TokenPrefix
token_of cat_le capability commitment =
    some (record {
      category_le = cat_le;
      capability = capability;
      commitment = commitment;
      amount = 0;
    })

abbrev pub recycled_source : Bytes → TickerUtxo → SpentOutput
recycled_source cat_le t = record {
  value = t.value;
  locking_script = t.lock;
  token = token_of cat_le no_capability t.commitment;
}

-- The snapshot that the update writes; `seq + 1` wraps in a u32 and `k as u8` keeps the low byte.
unfoldable pub update_snapshot : HeadUtxo → List (Placed Statement) → Snapshot
update_snapshot head placed = record {
  ts = ts_of placed;
  seq = (head.commit.snapshot.seq + 1) % u32_mod;
  price = median_of placed;
  k = length placed % 256;
}

abbrev pub input_values : HeadUtxo → List TickerUtxo → List P2pkhInput → List ℕ
input_values head recycled topups = map (λ t. t.value) recycled ++ map (λ t. t.value) topups

module _ (x : External) (a : Artifacts) where
  -- The three buffers of the loop over the placed statements.
  unfoldable pub placed_sigs : List (Placed Statement) → Bytes
  placed_sigs [] = []
  placed_sigs (p ∷ rest) = unwrap_or (sig_bytes x p.1) [] ++ placed_sigs rest

  unfoldable pub price_bytes : List (Placed Statement) → Bytes
  price_bytes [] = []
  price_bytes (p ∷ rest) = le_bytes 4 p.1.price ++ price_bytes rest

  unfoldable pub update_unlock : Bytes → List (Placed Statement) → Bytes
  update_unlock table placed =
      push_data (le_bytes 4 (median_of placed))
      ++ (push_data (placed_sigs placed)
          ++ (push_data (price_bytes placed)
              ++ (push_data (map row_of placed)
                  ++ (push_data (le_bytes 4 (ts_of placed))
                      ++ (push_data table
                          ++ (push_int (record { negative = false; unsigned_abs = 0 })
                              ++ push_data (oracle_redeem a)))))))

  unfoldable pub update_inputs : HeadUtxo → Bytes → List TickerUtxo → List P2pkhInput → List Input
  update_inputs head unlock recycled topups =
      (record { prev = head.outpoint; unlock_script = unlock; sequence = sequence_timelock }
        ∷ map recycled_input recycled)
      ++ map topup_input topups

  unfoldable pub update_sources : HeadUtxo → List TickerUtxo → List P2pkhInput → List SpentOutput
  update_sources head recycled topups =
      let cat_le = category_le head.category in
      (record {
        value = head.value;
        locking_script = oracle_lock x a;
        token = token_of cat_le minting_capability head.raw;
      }
        ∷ map (recycled_source cat_le) recycled)
      ++ map topup_source topups

  -- Output 0 is the head with what remains; the Tickers follow.
  unfoldable pub update_outputs : HeadUtxo → Snapshot → (value : ℕ) → List Output
  update_outputs head snapshot value =
      let cat_le = category_le head.category in
      let commit : HeadCommit = record {
        snapshot = snapshot;
        table_hash = head.commit.table_hash;
      } in
      record {
        value = value;
        locking_script = oracle_lock x a;
        token = token_of cat_le minting_capability (HeadCommit.encode commit);
      }
      ∷ replicate tickers_per_update (record {
        value = ticker_sats;
        locking_script = ticker_lock a;
        token = token_of cat_le no_capability (Snapshot.encode snapshot);
      })

  unfoldable pub update_tx :
      HeadUtxo
      → Bytes
      → List (Placed Statement)
      → List TickerUtxo
      → List P2pkhInput
      → (value : ℕ) → Tx
  update_tx head table placed recycled topups value =
      let inputs = update_inputs head (update_unlock table placed) recycled topups in
      record (new_tx inputs (update_outputs head (update_snapshot head placed) value)) {
        locktime = update_locktime (ts_of placed) recycled;
      }

  -- From the placed statements to the transaction before signing: sized with value 0 in output 0,
  -- which then takes what remains.
  unfoldable pub draft_update :
      HeadUtxo
      → Bytes
      → List (Placed Statement)
      → List TickerUtxo
      → List P2pkhInput
      → Result BuildError Draft
  draft_update head table placed recycled topups = do
    let total = add_values head.value (input_values head recycled topups)
    let fee = (length (encode_tx (update_tx head table placed recycled topups 0)) + 1) % u64_mod
    let cap = fee_cap (length (update_unlock table placed))
    refuse_if (ltb cap fee) (above_fee_cap fee cap)
    let spend = (fee + ticker_sats * tickers_per_update) % u64_mod
    refuse_if (ltb total spend) (insufficient total)
    ok (record {
      tx = update_tx head table placed recycled topups (total - spend);
      sources = update_sources head recycled topups;
      signers = signers_from (1 + length recycled) topups;
      fee = fee;
    })

  unfoldable pub build_update :
      ℕ → HeadUtxo → Bytes → List Statement → List TickerUtxo → List P2pkhInput → Outcome BuiltTx
  build_update fuel head table statements recycled topups = sign_drafted x fuel (do
    placed ← select_statements x head table statements
    draft_update head table placed recycled topups)
