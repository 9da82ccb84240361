-- ===== src/Manifest/Valid.antt =====
-- What keeps a manifest valid.
use ticker_cash.Prelude.{
  ◌≡◌, refl, false, ◌&&◌, not, List, length, ◌==◌, ok, err, >>=-eq-ok, refuse_if-eq-ok,
  Result-cases, ◌⊎◌, inl, inr,
}
use ticker_cash.Bytes.{Bytes, bytes_eq}
use ticker_cash.Bytes.Laws.{bytes_eq_iff}
use ticker_cash.Text.{codes}
use ticker_cash.External.{External}
use ticker_cash.Tx.Covenant.{Artifacts, oracle_lock, ticker_lock, table_hash}
use ticker_cash.Manifest.{
  TableRow, Manifest, ManifestError, manifest_version, is_bad_category, expected_locks, validate,
  validate_rows, table_bytes, table_hash_bytes, migrated, set_table, require_current,
}
use ticker_cash.Manifest.Rows.{IsTable, validate_rows_iff}

self_equal : (b : Bytes) → not (bytes_eq b b) ≡ false
self_equal b = let same = (bytes_eq_iff b b).1 refl in rw same refl

module _ (x : External) (a : Artifacts) where
  -- The parts of a manifest agree, for a version with the given locks.
  pub record Agrees (m : Manifest) (locks : Bytes × Bytes) : Type 0 where
    pub network :
        (not (bytes_eq m.network (codes "chipnet")) && not (bytes_eq m.network (codes "mainnet")))
        ≡ false
    pub table : validate_rows x m.table ≡ ok tt
    pub electrum : (length m.electrum == 0) ≡ false
    pub category : is_bad_category x (x.hex_decode m.category) ≡ false
    pub oracle : not (bytes_eq (x.hex_encode locks.0) m.oracle_lock) ≡ false
    pub ticker : not (bytes_eq (x.hex_encode locks.1) m.ticker_lock) ≡ false
    pub hash : not (bytes_eq (x.hex_encode (table_hash_bytes x m)) m.table_hash) ≡ false

  pub validate-Agrees :
      (m : Manifest)
      → validate x a m ≡ ok tt
      → (locks : Bytes × Bytes) × (expected_locks x a m.version ≡ ok locks) × Agrees m locks
  unfolding validate
  validate-Agrees m h =
      let (locks, expected, h0) = >>=-eq-ok (expected_locks x a m.version) _ h in
      let (network, h1) =
        refuse_if-eq-ok
          (not (bytes_eq m.network (codes "chipnet")) && not (bytes_eq m.network (codes "mainnet")))
          _ _ h0 in
      let (done, table, h2) = >>=-eq-ok (validate_rows x m.table) _ h1 in
      let (electrum, h3) = refuse_if-eq-ok (length m.electrum == 0) _ _ h2 in
      let (category, h4) = refuse_if-eq-ok (is_bad_category x (x.hex_decode m.category)) _ _ h3 in
      let (oracle, h5) =
        refuse_if-eq-ok (not (bytes_eq (x.hex_encode locks.0) m.oracle_lock)) _ _ h4 in
      let (ticker, h6) =
        refuse_if-eq-ok (not (bytes_eq (x.hex_encode locks.1) m.ticker_lock)) _ _ h5 in
      let (hash, h7) =
        refuse_if-eq-ok (not (bytes_eq (x.hex_encode (table_hash_bytes x m)) m.table_hash)) _ _
          h6 in
      (
        locks,
        expected,
        record {
          network = network;
          table = table;
          electrum = electrum;
          category = category;
          oracle = oracle;
          ticker = ticker;
          hash = hash;
        },
      )

  pub Agrees-validate :
      (m : Manifest) (locks : Bytes × Bytes)
      → expected_locks x a m.version ≡ ok locks
      → Agrees m locks
      → validate x a m ≡ ok tt
  unfolding validate
  Agrees-validate m locks expected g =
      rw (expected, g.network, g.table, g.electrum, g.category, g.oracle, g.ticker, g.hash) refl

  -- The manifest that a migration writes is valid and current where the old manifest was valid, and only
  -- its version and its two locks differ.
  migrated_valid :
      (m : Manifest)
      → validate x a m ≡ ok tt
      → (validate x a (migrated x a m) ≡ ok tt)
        × (require_current (migrated x a m) ≡ ok tt)
        × (migrated x a m ≡ record m {
          version = manifest_version;
          oracle_lock = x.hex_encode (oracle_lock x a);
          ticker_lock = x.hex_encode (ticker_lock a);
        })
  unfolding migrated require_current expected_locks table_hash_bytes
  migrated_valid m h =
      let (locks, expected, g) = validate-Agrees m h in
      (
        Agrees-validate (migrated x a m) (oracle_lock x a, ticker_lock a) refl
            (record {
              network = g.network;
              table = g.table;
              electrum = g.electrum;
              category = g.category;
              oracle = self_equal (x.hex_encode (oracle_lock x a));
              ticker = self_equal (x.hex_encode (ticker_lock a));
              hash = g.hash;
            }),
        refl,
        refl,
      )

  -- Writing a new table into a valid manifest either is refused, where the table is not one of a
  -- deployment, or gives a valid manifest that has the new table and the hash of its bytes.
  pub set_table_valid :
      (m : Manifest) (table : List TableRow)
      → validate x a m ≡ ok tt
      → ((m' : Manifest) × (set_table x m table ≡ ok m')
          × (validate x a m' ≡ ok tt)
          × (m'.table ≡ table)
          × (m'.table_hash ≡ x.hex_encode (table_hash x (table_bytes x table)))
          × IsTable x table)
        ⊎ ((e : ManifestError) × (set_table x m table ≡ err e) × ¬ IsTable x table)
  unfolding set_table table_hash_bytes
  set_table_valid m table h = elim (Result-cases (validate_rows x table)) [
    | inl (tt, is_table) ↦
        let (locks, expected, g) = validate-Agrees m h in
        let m' : Manifest = record m {
          table_hash = x.hex_encode (table_hash x (table_bytes x table));
          table = table;
        } in
        inl (
          m',
          rw is_table refl,
          Agrees-validate m' locks expected (record {
            network = g.network;
            table = is_table;
            electrum = g.electrum;
            category = g.category;
            oracle = g.oracle;
            ticker = g.ticker;
            hash = self_equal (x.hex_encode (table_hash x (table_bytes x table)));
          }),
          refl,
          refl,
          (validate_rows_iff x table).0 is_table,
        )
    | inr (e, refused) ↦
        inr (e, rw refused refl, λ t. (let accepted = (validate_rows_iff x table).1 t in cc))
  ]
