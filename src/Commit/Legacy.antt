-- ===== src/Commit/Legacy.antt =====
-- node/core/src/commit.rs, `mod legacy`: the v26 layouts.
use ticker_cash.Prelude.{
  ok, err, ◌>>=◌, ℕ, ◌+◌, ◌*◌, [], ◌∷◌, ◌++◌, length, slice, drop, get_or, ◌==◌, if◌then◌else◌,
}
use ticker_cash.Bytes.{Bytes, le_bytes, from_le_bytes}
use ticker_cash.Constants.{legacy_ticker_life_secs}
use ticker_cash.Commit.Types.{Decoded, wrong_length}

abbrev pub snapshot26_len : ℕ
snapshot26_len = 13

abbrev pub head_commit26_len : ℕ
head_commit26_len = 33

-- seq is u32, price u64, k u8.
pub record Snapshot26 : Type 0 where
  pub seq : ℕ
  pub price : ℕ
  pub k : ℕ

pub record HeadCommit26 : Type 0 where
  pub snapshot : Snapshot26
  pub table_hash : Bytes

unfoldable pub encode_snapshot26 : Snapshot26 → Bytes
encode_snapshot26 s = le_bytes 4 s.seq ++ (le_bytes 8 s.price ++ (s.k ∷ []))

unfoldable pub decode_snapshot26 : Bytes → Decoded Snapshot26
decode_snapshot26 bytes =
    if length bytes == snapshot26_len
    then ok (record {
      seq = from_le_bytes (slice 0 4 bytes);
      price = from_le_bytes (slice 4 12 bytes);
      k = get_or bytes 12 0;
    })
    else err (wrong_length (length bytes) snapshot26_len)

unfoldable pub recyclable26_at : Snapshot26 → ℕ
recyclable26_at s = s.seq * 60 + legacy_ticker_life_secs

unfoldable pub encode_head26 : HeadCommit26 → Bytes
unfolding encode_snapshot26
encode_head26 h = encode_snapshot26 h.snapshot ++ h.table_hash

unfoldable pub decode_head26 : Bytes → Decoded HeadCommit26
unfolding decode_snapshot26
decode_head26 bytes =
    if length bytes == head_commit26_len
    then (do
      snapshot ← decode_snapshot26 (slice 0 snapshot26_len bytes)
      ok (record { snapshot = snapshot; table_hash = drop snapshot26_len bytes }))
    else err (wrong_length (length bytes) head_commit26_len)
