-- ===== src/Commit/RoundTrip.antt =====
-- Decoding after encoding, for both generations of commitments, and a head fresh from migration.
use ticker_cash.Prelude.{
  ok, ◌<◌, ◌≡◌, refl, ap, true, inl, inr, [], ◌∷◌, ◌++◌, ◌==◌, arith, length, slice, take, get_or,
  subst, All, Bool-cases, >>=-eq-ok, ok-injective, length-take, length-append, take-append_eq,
  drop-append_eq,
}
use ticker_cash.Bytes.{Bytes, IsByte, u32_mod, le_bytes, from_le_bytes, cells}
use ticker_cash.Bytes.Laws.{cells-length, bytes_eq_iff, le_bytes-slice, from_le_bytes-slice-lt}
use ticker_cash.Commit.Types.{Snapshot, HeadCommit}
use ticker_cash.Commit.Snapshot
use ticker_cash.Commit.HeadCommit

-- The fields of a snapshot are in range.
pub record InRange (s : Snapshot) : Type 0 where
  pub ts_u32 : s.ts < u32_mod
  pub seq_u32 : s.seq < u32_mod
  pub price_u32 : s.price < u32_mod

-- Every snapshot whose fields fit in 32 bits is read back from its 17 bytes.
decode-encode : (s : Snapshot) → InRange s → Snapshot.decode (Snapshot.encode s) ≡ ok s
unfolding Snapshot.encode Snapshot.decode le_bytes from_le_bytes
decode-encode s h = ground arith

-- A string of 17 bytes is its slices as `encode` writes them.
snapshot_tiles :
    (bs : Bytes)
    → length bs ≡ 17
    → slice 0 4 bs ++ (slice 4 8 bs ++ (slice 8 12 bs ++ (slice 12 16 bs ++ (get_or bs 16 0 ∷ []))))
      ≡ bs
unfolding cells
snapshot_tiles bs h =
    subst
      (λ x.
        slice 0 4 x ++ (slice 4 8 x ++ (slice 8 12 x ++ (slice 12 16 x ++ (get_or x 16 0 ∷ []))))
        ≡ x)
      (rw h at (cells-length bs)) refl

-- The fields as `decode` reads them.
abbrev fields : Bytes → Snapshot
fields bs = record {
  ts = from_le_bytes (slice 0 4 bs);
  seq = from_le_bytes (slice 8 12 bs);
  price = from_le_bytes (slice 12 16 bs);
  k = get_or bs 16 0;
}

decoded_fields :
    (bs : Bytes) {s : Snapshot} → Snapshot.decode bs ≡ ok s → (length bs ≡ 17) × (s ≡ fields bs)
unfolding Snapshot.decode
decoded_fields bs e = ground arith

module _ (bs : Bytes) (bytes : All IsByte bs) (len : length bs ≡ 17) where
  fields-InRange : InRange (fields bs)
  fields-InRange = record {
    ts_u32 = from_le_bytes-slice-lt 0 4 bs bytes (omega arith);
    seq_u32 = from_le_bytes-slice-lt 8 4 bs bytes (omega arith);
    price_u32 = from_le_bytes-slice-lt 12 4 bs bytes (omega arith);
  }

  encode-fields : Snapshot.is_canonical bs ≡ true → Snapshot.encode (fields bs) ≡ bs
  unfolding Snapshot.encode Snapshot.is_canonical
  encode-fields canonical =
      rw
        (
          le_bytes-slice 0 4 bs bytes (omega arith),
          le_bytes-slice 8 4 bs bytes (omega arith),
          le_bytes-slice 12 4 bs bytes (omega arith),
        )
        (cc (snapshot_tiles bs len, same))
    where
      same : slice 4 8 bs ≡ slice 8 12 bs
      same = (bytes_eq_iff (slice 4 8 bs) (slice 8 12 bs)).0 (ground arith)

-- A canonical snapshot that decodes is in range and encodes to the bytes that it was read from.
encode-decode :
    (bs : Bytes) {s : Snapshot}
    → All IsByte bs
    → Snapshot.is_canonical bs ≡ true
    → Snapshot.decode bs ≡ ok s
    → InRange s × (Snapshot.encode s ≡ bs)
encode-decode bs bytes canonical decoded =
    let (len, e) = decoded_fields bs decoded in
    rw e (fields-InRange bs bytes len, encode-fields bs bytes len canonical)

-- What `encode` writes is 17 bytes and canonical.
encode-is_canonical :
    (s : Snapshot)
    → (length (Snapshot.encode s) ≡ 17) × (Snapshot.is_canonical (Snapshot.encode s) ≡ true)
unfolding Snapshot.encode Snapshot.is_canonical le_bytes
encode-is_canonical s = (refl, (bytes_eq_iff (le_bytes 4 s.seq) (le_bytes 4 s.seq)).1 refl)

-- A head commitment with a 20-byte table hash is read back from its 37 bytes.
pub decode-encode_head :
    (h : HeadCommit)
    → InRange h.snapshot
    → length h.table_hash ≡ 20
    → (length (HeadCommit.encode h) ≡ 37) × (HeadCommit.decode (HeadCommit.encode h) ≡ ok h)
unfolding HeadCommit.encode HeadCommit.decode Snapshot.encode le_bytes from_le_bytes
decode-encode_head h r len = ground arith

-- The table hash of a head commitment can be replaced behind its snapshot.
pub decode-with_hash :
    (raw hash : Bytes) (h : HeadCommit)
    → HeadCommit.decode raw ≡ ok h
    → length hash ≡ 20
    → HeadCommit.decode (take 17 raw ++ hash) ≡ ok (record h { table_hash = hash })
unfolding HeadCommit.decode
decode-with_hash raw hash h e len = elim (Bool-cases (length raw == 37)) [
  | inr other ↦ absurd (let bad = rw other at e in cc)
  | inl whole ↦
      let (snapshot, read, same) = >>=-eq-ok (Snapshot.decode (take 17 raw)) _ (rw whole at e) in
      let front : length (take 17 raw) ≡ 17 = ground (arith, length-take 17 raw) in
      let all : length (take 17 raw ++ hash) ≡ 37 =
        omega (arith, length-append (take 17 raw) hash) in
      rw
        (
          all,
          take-append_eq 17 (take 17 raw) hash front,
          drop-append_eq 17 (take 17 raw) hash front,
          read,
        )
        (ap (λ (h : HeadCommit). ok (record h { table_hash = hash })) (ok-injective same))
]
