-- ===== src/Daemon/Genesis/Written.antt =====
-- What a genesis writes.
use ticker_cash.Prelude.{
  ℕ, ◌-◌, ◌*◌, ◌/◌, ◌%◌, ◌^◌, [], ◌∷◌, ◌++◌, reverse, replicate, ◌≡◌, refl, sym, ap, ◌∙◌, subst,
  none, some, length, All, Result, ok, err, >>=-eq-ok, ok-injective, some-injective, Bool-cases,
  inl, inr,
}
use ticker_cash.Bytes.{IsByte, bytes_eq, le_bytes}
use ticker_cash.Commit.Clock.{current_minute}
use ticker_cash.Bytes.Laws.{bytes_eq_iff}
use ticker_cash.Text.{Text}
use ticker_cash.External.{External}
use ticker_cash.Manifest.{
  Manifest, manifest_version, validate, validate_rows, table_hash_bytes, category_bytes,
  require_current,
}
use ticker_cash.Statement.{decode_array, try_array}
use ticker_cash.Manifest.Valid.{validate-Agrees, Agrees-validate}
use ticker_cash.Keyfile.{KeyMaterial}
use ticker_cash.Keyfile.RoundTrip.{HexLaws}
use ticker_cash.Electrum.{ElectrumError}
use ticker_cash.Tx.Types.{TxOutpoint}
use ticker_cash.Tx.Covenant.{Artifacts, oracle_lock}
use ticker_cash.Tx.Script.{p2pkh_locking_script}
use ticker_cash.Tx.Build.Genesis.Built.{build_genesis-outputs, genesis_outputs_lem}
use ticker_cash.Tx.Build.Types.{BuiltTx}
use ticker_cash.Tx.Build.Sign.{Outcome}
use ticker_cash.Tx.Build.Genesis.{build_genesis}
use ticker_cash.Daemon.{Failure, Server}
use ticker_cash.Daemon.Chain.{answered}
use ticker_cash.Daemon.Genesis.{
  GenesisSpec, provisional_manifest, funding_input, initial_ts, opened_manifest, with_txid, publish,
  open_with,
}

module _ (x : External) (a : Artifacts) where
  provisional_manifest-eq-ok :
      (spec : GenesisSpec) (m : Manifest)
      → provisional_manifest x a spec ≡ ok m
      → (validate x a m ≡ ok tt)
        × (m.version ≡ manifest_version)
        × (m.table ≡ spec.table)
        × (m.network ≡ spec.network)
  unfolding provisional_manifest
  provisional_manifest-eq-ok spec m e =
      let (done, rows, e1) = >>=-eq-ok (validate_rows x spec.table) _ e in
      let (done', valid, e2) = >>=-eq-ok (validate x a _) _ e1 in
      let same = ok-injective e2 in
      (
        subst (λ n. validate x a n ≡ ok tt) same valid,
        ap Manifest.version (sym same),
        ap Manifest.table (sym same),
        ap Manifest.network (sym same),
      )

  answered-eq-ok :
      (r : Result ElectrumError Text) (txid : Text) → answered r ≡ ok txid → r ≡ ok txid
  answered-eq-ok (ok t) txid e = cc
  answered-eq-ok (err f) txid e = cc

  with_txid-eq-ok :
      (r : Result Failure Text) (m m' : Manifest)
      → with_txid x a r m ≡ ok m'
      → (r ≡ ok m.genesis_txid) × (m ≡ m')
  with_txid-eq-ok (err e) m m' h = cc
  with_txid-eq-ok (ok txid) m m' h = elim (Bool-cases (bytes_eq txid m.genesis_txid)) [
    | inl same ↦ (
      ap ok ((bytes_eq_iff txid m.genesis_txid).0 same),
      ok-injective (rw (same, with_txid) at h),
    )
    | inr other ↦ absurd (let bad = rw (other, with_txid) at h in cc)
  ]

  publish-eq-ok :
      (server : Server) (m m' : Manifest) (op : TxOutpoint) (o : Outcome BuiltTx)
      → publish x a server m op o ≡ some (ok m')
      → (built : BuiltTx) × (o ≡ some (ok built))
        × (opened_manifest x a m op built ≡ m')
        × (server.broadcast_raw built.raw ≡ ok m'.genesis_txid)
  publish-eq-ok server m m' op none e = cc
  publish-eq-ok server m m' op (some (err f)) e = cc
  publish-eq-ok server m m' op (some (ok built)) e =
      let (sent, same) =
        with_txid-eq-ok (answered (server.broadcast_raw built.raw)) (opened_manifest x a m op built)
          m' (some-injective e) in
      (
        built,
        refl,
        same,
        answered-eq-ok (server.broadcast_raw built.raw) m'.genesis_txid
            (sent ∙ ap (λ (n : Manifest). ok n.genesis_txid) same),
      )

  module _ (laws : HexLaws x) (op : TxOutpoint) (bytes : All IsByte op.txid_be)
      (len : length op.txid_be ≡ 32) where
    category_read : decode_array x 32 (x.hex_encode op.txid_be) ≡ some op.txid_be
    unfolding decode_array try_array
    category_read = rw (laws.read_back op.txid_be bytes) (rw len refl)

    opened_valid :
        (m : Manifest) (built : BuiltTx)
        → validate x a m ≡ ok tt
        → validate x a (opened_manifest x a m op built) ≡ ok tt
    unfolding table_hash_bytes
    opened_valid m built h =
        let (locks, expected, g) = validate-Agrees x a m h in
        Agrees-validate x a (opened_manifest x a m op built) locks expected (record {
          network = g.network;
          table = g.table;
          electrum = g.electrum;
          category = rw (laws.read_back op.txid_be bytes) (rw len refl);
          oracle = g.oracle;
          ticker = g.ticker;
          hash = g.hash;
        })

    -- Where a coin's transaction id is 32 bytes and the hex crate obeys its laws: the manifest that a genesis
    -- writes over this coin is valid and current, it has the rows of `genesis.json` and the coin's
    -- transaction as its category; and the node accepted, under the id that the manifest has, a transaction
    -- of `build_genesis` with two outputs: a minting NFT of the category that is the coin's transaction, with the reserve at the Oracle lock,
    -- whose commitment is the initial minute, 13 zero bytes and the hash of this manifest's table; and the
    -- change to the key.
    pub open_with_written :
        (fuel : ℕ) (server : Server) (spec : GenesisSpec) (m m' : Manifest) (key : KeyMaterial)
        (value reserve now : ℕ)
        → provisional_manifest x a spec ≡ ok m
        → open_with x a fuel server m key (op, value) reserve now ≡ some (ok m')
        → (validate x a m' ≡ ok tt)
          × (require_current m' ≡ ok tt)
          × (m'.table ≡ spec.table)
          × (category_bytes x m' ≡ op.txid_be)
          × ((built : BuiltTx) × (build_genesis x a fuel
                  (funding_input key (op, value))
                  (table_hash_bytes x m')
                  reserve
                  (initial_ts now)
                ≡ some (ok built))
              × (server.broadcast_raw built.raw ≡ ok m'.genesis_txid)
              × ((change : ℕ) × (built.tx.outputs
                    ≡ record {
                      value = reserve;
                      locking_script = oracle_lock x a;
                      token = some (record {
                        category_le = reverse op.txid_be;
                        capability = 2;
                        commitment =
                            le_bytes 4 ((now / 60 % 2 ^ 32 - 1) * 60 % 2 ^ 32)
                            ++ (replicate 13 0 ++ table_hash_bytes x m');
                        amount = 0;
                      });
                    }
                      ∷ record {
                        value = change;
                        locking_script = p2pkh_locking_script key.pkh;
                        token = none;
                      }
                      ∷ [])))
    unfolding open_with table_hash_bytes require_current category_bytes current_minute
    open_with_written fuel server spec m m' key value reserve now provisional e =
        let (valid, version, table, network) = provisional_manifest-eq-ok spec m provisional in
        let (built, is_built, same, sent) = publish-eq-ok server m m' op _ e in
        let is_built' : build_genesis x a fuel (funding_input key (op, value))
              (table_hash_bytes x m') reserve (initial_ts now)
            ≡ some (ok built) =
          subst
            (λ (n : Manifest).
              build_genesis x a fuel (funding_input key (op, value)) (table_hash_bytes x n) reserve
                (initial_ts now)
              ≡ some (ok built))
            same is_built in
        let category : category_bytes x m' ≡ op.txid_be =
          subst (λ n. category_bytes x n ≡ op.txid_be) same (rw category_read refl) in
        let (change, outputs) =
          build_genesis-outputs x a (funding_input key (op, value)) (table_hash_bytes x m') reserve
            (initial_ts now) fuel built is_built' in
        (
          subst (λ n. validate x a n ≡ ok tt) same (opened_valid m built valid),
          subst (λ n. require_current n ≡ ok tt) same (rw version refl),
          ap Manifest.table (sym same) ∙ table,
          category,
          (
            built,
            is_built',
            sent,
            (
              change,
              outputs
                  ∙ genesis_outputs_lem x a (funding_input key (op, value)) (table_hash_bytes x m')
                      reserve (initial_ts now) change,
            ),
          ),
        )
