-- ===== src/Commit/Migrated.antt =====
-- node/core/src/commit.rs, `mod legacy`: round trips of the v26 layouts, and what the v27 decoder
-- reads in a head fresh from migration.
use ticker_cash.Prelude.{ok, ◌<◌, ◌≡◌, arith, length}
use ticker_cash.Bytes.{u32_mod, u64_mod, le_bytes, from_le_bytes}
use ticker_cash.Commit.Types.{}
use ticker_cash.Commit.Snapshot
use ticker_cash.Commit.HeadCommit
use ticker_cash.Commit.Legacy.{
  Snapshot26, HeadCommit26, encode_snapshot26, decode_snapshot26, encode_head26, decode_head26,
}

pub decode-encode_snapshot26 :
    (s : Snapshot26)
    → s.seq < u32_mod
    → s.price < u64_mod
    → decode_snapshot26 (encode_snapshot26 s) ≡ ok s
unfolding encode_snapshot26 decode_snapshot26 le_bytes from_le_bytes
decode-encode_snapshot26 s hs hp = ground arith

-- A v26 head commitment with a 20-byte table hash is read back from its 33 bytes.
decode-encode_head26 :
    (h : HeadCommit26)
    → h.snapshot.seq < u32_mod
    → h.snapshot.price < u64_mod
    → length h.table_hash ≡ 20
    → (length (encode_head26 h) ≡ 33) × (decode_head26 (encode_head26 h) ≡ ok h)
unfolding encode_head26 decode_head26 encode_snapshot26 le_bytes from_le_bytes
decode-encode_head26 h hs hp len = ground arith
