-- ===== src/Daemon/Chain.antt =====
-- node/daemon/src/chain.rs: the head, the Tickers and the coins among what the server lists.
pub mod Newer
pub mod Head
pub mod Tickers
use ticker_cash.Prelude.{
  ℕ, suc, ◌+◌, ◌-◌, Bool, true, false, ◌&&◌, ◌||◌, Option, none, some, List, [], ◌∷◌, ◌++◌, take,
  ◌==◌, ltb, if◌then◌else◌, Result, ok, err, ◌>>=◌, ok_or,
}
use ticker_cash.Bytes.{Bytes, bytes_eq, u64_mod}
use ticker_cash.Text.{Text}
use ticker_cash.External.{External}
use ticker_cash.Commit.Types.{HeadCommit, Snapshot}
use ticker_cash.Commit.Snapshot
use ticker_cash.Commit.HeadCommit
use ticker_cash.Commit.Legacy.{HeadCommit26, decode_head26, Snapshot26, decode_snapshot26}
use ticker_cash.Manifest.{Manifest, expect, category_bytes}
use ticker_cash.Electrum.{ElectrumError, NftCapability, minting, NftBody, TokenData, Utxo, txid_of}
use ticker_cash.Tx.Types.{TxOutpoint}
use ticker_cash.Tx.Script.{p2pkh_locking_script}
use ticker_cash.Tx.Covenant.{
  Artifacts, ticker_lock, ticker26_lock, oracle26_lock, electrum_scripthash,
}
use ticker_cash.Tx.Build.Types.{HeadUtxo, LegacyHeadUtxo, TickerUtxo, ticker_v27, ticker_v26}
use ticker_cash.Tx.Build.Sort.{sort_by_key}
use ticker_cash.Daemon.{Failure, no_answer, bad_hex, bad_txid, Server}

-- `nft.capability == wanted`
unfoldable pub capability_eq : NftCapability → NftCapability → Bool
capability_eq NftCapability.mutable NftCapability.mutable = true
capability_eq NftCapability.minting NftCapability.minting = true
capability_eq NftCapability.none NftCapability.none = true
capability_eq _ _ = false

-- The NFT of a token of the category, if it has the capability.
unfoldable pub nft_in : Text → NftCapability → Option TokenData → Option NftBody
nft_in category wanted none = none
nft_in category wanted (some td) =
    if bytes_eq td.category category
    then elim td.nft [
      | none ↦ none
      | some nft ↦ if capability_eq nft.capability wanted then some nft else none
    ]
    else none

-- `?` on an error of the client.
abbrev pub answered : {A : Type 0} → Result ElectrumError A → Result Failure A
answered (ok a) = ok a
answered (err e) = err (no_answer e)

-- The head is of a later update, or of a later minute with the same counter.
unfoldable pub newer : HeadCommit → HeadCommit → Bool
newer h b =
    ltb b.snapshot.seq h.snapshot.seq
    || (h.snapshot.seq == b.snapshot.seq && ltb b.snapshot.ts h.snapshot.ts)

unfoldable pub keep_newer : HeadUtxo → Option HeadUtxo → HeadUtxo
keep_newer h none = h
keep_newer h (some b) = if newer h.commit b.commit then h else b

unfoldable pub keep_newer26 : LegacyHeadUtxo → Option LegacyHeadUtxo → LegacyHeadUtxo
keep_newer26 h none = h
keep_newer26 h (some b) = if ltb b.commit.snapshot.seq h.commit.snapshot.seq then h else b

module _ (x : External) where
  unfoldable pub outpoint : Utxo → Result Failure TxOutpoint
  outpoint u = do
    txid ← ok_or (txid_of x u) (bad_txid u.tx_hash)
    ok (record { txid_be = txid; vout = u.tx_pos })

  -- The loop of `minting_at`.
  unfoldable pub minting_from : Text → List Utxo → Result Failure (List (Utxo × Bytes))
  minting_from category [] = ok []
  minting_from category (u ∷ rest) = elim (nft_in category minting u.token_data) [
    | none ↦ minting_from category rest
    | some nft ↦ do
      raw ← ok_or (x.hex_decode nft.commitment) bad_hex
      later ← minting_from category rest
      ok ((u, raw) ∷ later)
  ]

  unfoldable pub minting_at : Server → Manifest → Bytes → Result Failure (List (Utxo × Bytes))
  minting_at server m lock = do
    unspent ← answered (server.list_unspent (electrum_scripthash x lock))
    minting_from m.category unspent

  -- The loop of `find_head`.
  unfoldable pub best_head :
      Bytes → Option HeadUtxo → List (Utxo × Bytes) → Result Failure (Option HeadUtxo)
  best_head category best [] = ok best
  best_head category best ((u, raw) ∷ rest) = elim (HeadCommit.decode raw) [
    | err e ↦ best_head category best rest
    | ok commit ↦ do
      op ← outpoint u
      let h : HeadUtxo = record {
        outpoint = op;
        value = u.value;
        commit = commit;
        raw = raw;
        category = category;
      }
      best_head category (some (keep_newer h best)) rest
  ]

  unfoldable pub find_head : Server → Manifest → Result Failure (Option HeadUtxo)
  find_head server m = do
    lock ← ok_or (x.hex_decode m.oracle_lock) bad_hex
    found ← minting_at server m lock
    best_head (category_bytes x m) none found

  unfoldable pub best_legacy_head :
      Bytes → Option LegacyHeadUtxo → List (Utxo × Bytes) → Result Failure (Option LegacyHeadUtxo)
  best_legacy_head category best [] = ok best
  best_legacy_head category best ((u, raw) ∷ rest) = elim (decode_head26 raw) [
    | err e ↦ best_legacy_head category best rest
    | ok commit ↦ do
      op ← outpoint u
      let h : LegacyHeadUtxo = record {
        outpoint = op;
        value = u.value;
        commit = commit;
        raw = raw;
        category = category;
      }
      best_legacy_head category (some (keep_newer26 h best)) rest
  ]

  -- The coins without a token, and their order: `sort_by` with the values compared from behind.
  unfoldable pub plain_coins : List Utxo → Result Failure (List (TxOutpoint × ℕ × ℕ))
  plain_coins [] = ok []
  plain_coins (u ∷ rest) = elim u.token_data [
    | some td ↦ plain_coins rest
    | none ↦ do op ← outpoint u; later ← plain_coins rest; ok ((op, u.value, u.height) ∷ later)
  ]

  unfoldable pub find_coins : Server → Bytes → Result Failure (List (TxOutpoint × ℕ × ℕ))
  find_coins server pkh = do
    utxos ← answered (server.list_unspent (electrum_scripthash x (p2pkh_locking_script pkh)))
    out ← plain_coins utxos
    ok (sort_by_key (λ c. u64_mod - c.1) out)

  module _ (a : Artifacts) where
    unfoldable pub find_legacy_head : Server → Manifest → Result Failure (Option LegacyHeadUtxo)
    find_legacy_head server m = do
      found ← minting_at server m (oracle26_lock x a)
      best_legacy_head (category_bytes x m) none found

    -- The Ticker that a commitment describes, if it decodes.
    unfoldable pub ticker_at :
        (is_legacy : Bool) → Utxo → Bytes → Result Failure (Option TickerUtxo)
    ticker_at true u raw = elim (decode_snapshot26 raw) [
      | err e ↦ ok none
      | ok snap ↦ do op ← outpoint u; ok (some (ticker_v26 a op u.value snap))
    ]
    ticker_at false u raw = elim (Snapshot.decode raw) [
      | err e ↦ ok none
      | ok snap ↦ do op ← outpoint u; ok (some (ticker_v27 a op u.value snap raw))
    ]

    abbrev pub push_due : ℕ → Option TickerUtxo → List TickerUtxo → List TickerUtxo
    push_due mtp none later = later
    push_due mtp (some t) later = if ltb t.recyclable_at mtp then t ∷ later else later

    -- The loop over the outputs at one lock.
    unfoldable pub due_tickers : Text → Bool → ℕ → List Utxo → Result Failure (List TickerUtxo)
    due_tickers category is_legacy mtp [] = ok []
    due_tickers category is_legacy mtp (u ∷ rest) =
        elim (nft_in category NftCapability.none u.token_data) [
          | none ↦ due_tickers category is_legacy mtp rest
          | some nft ↦ do
            raw ← ok_or (x.hex_decode nft.commitment) bad_hex
            t ← ticker_at is_legacy u raw
            later ← due_tickers category is_legacy mtp rest
            ok (push_due mtp t later)
        ]

    unfoldable pub find_recyclable_tickers :
        Server → Manifest → (mtp max : ℕ) → Result Failure (List TickerUtxo)
    find_recyclable_tickers server m mtp max = do
      current ← answered (server.list_unspent (electrum_scripthash x (ticker_lock a)))
      due ← due_tickers m.category false mtp current
      old ← answered (server.list_unspent (electrum_scripthash x (ticker26_lock a)))
      due26 ← due_tickers m.category true mtp old
      ok (take max (sort_by_key (λ t. TickerUtxo.recyclable_at t) (due ++ due26)))
