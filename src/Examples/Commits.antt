-- ===== src/Examples/Commits.antt =====
-- The commitments of node/core/src/commit.rs at one minute.
use ticker_cash.Prelude.{◌≡◌, refl, [], ◌∷◌, length, replicate, true, ok, arith}
use ticker_cash.Bytes.{Bytes, bytes_eq, from_le_bytes}
use ticker_cash.Commit.Types.{Snapshot, HeadCommit}
use ticker_cash.Commit.Snapshot
use ticker_cash.Commit.HeadCommit
use ticker_cash.Commit.Legacy.{HeadCommit26}
use ticker_cash.Commit.RoundTrip.{InRange, decode-encode_head}

abbrev minute_snapshot : Snapshot
minute_snapshot = record { ts = 1_792_200_060; seq = 1001; price = 29_000; k = 13 }

minute_snapshot-InRange : InRange minute_snapshot
minute_snapshot-InRange = record {
  ts_u32 = omega arith;
  seq_u32 = omega arith;
  price_u32 = omega arith;
}

abbrev minute_head : HeadCommit
minute_head = record { snapshot = minute_snapshot; table_hash = replicate 20 0xab }

abbrev legacy_head : HeadCommit26
legacy_head = record {
  snapshot = record { seq = 29_870_000; price = 27_257_000_000; k = 13 };
  table_hash = replicate 20 0xab;
}

abbrev small_bytes : Bytes
small_bytes = 1 ∷ 2 ∷ 3 ∷ 4 ∷ 9 ∷ 0 ∷ 0 ∷ 0 ∷ 9 ∷ 0 ∷ 0 ∷ 0 ∷ 5 ∷ 6 ∷ 0 ∷ 0 ∷ 13 ∷ []

abbrev small_snapshot : Snapshot
small_snapshot = record { ts = 67_305_985; seq = 9; price = 1_541; k = 13 }

small_canonical : Snapshot.is_canonical small_bytes ≡ true
unfolding Snapshot.is_canonical bytes_eq
small_canonical = refl

small_decoded : Snapshot.decode small_bytes ≡ ok small_snapshot
unfolding Snapshot.decode from_le_bytes
small_decoded = refl

decode-encode_head_example :
    (length (HeadCommit.encode minute_head) ≡ 37)
    × (HeadCommit.decode (HeadCommit.encode minute_head) ≡ ok minute_head)
decode-encode_head_example = decode-encode_head minute_head minute_snapshot-InRange refl
