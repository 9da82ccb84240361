-- ===== src/Commit/Snapshot.antt =====
-- node/core/src/commit.rs: the methods of `Snapshot`.
use ticker_cash.Prelude.{
  ok, err, ℕ, ◌+◌, Bool, ◌&&◌, [], ◌∷◌, ◌++◌, length, slice, get_or, ◌==◌, if◌then◌else◌,
}
use ticker_cash.Bytes.{Bytes, le_bytes, from_le_bytes, bytes_eq}
use ticker_cash.Constants.{ticker_life_secs}
use ticker_cash.Commit.Types.{Snapshot, Decoded, wrong_length, snapshot_len}

-- The five slices that `encode` writes tile the 17 bytes, in this order.
unfoldable pub encode : Snapshot → Bytes
encode s =
    le_bytes 4 s.ts
    ++ (le_bytes 4 s.seq ++ (le_bytes 4 s.seq ++ (le_bytes 4 s.price ++ (s.k ∷ []))))

unfoldable pub decode : Bytes → Decoded Snapshot
decode bytes =
    if length bytes == snapshot_len
    then ok (record {
      ts = from_le_bytes (slice 0 4 bytes);
      seq = from_le_bytes (slice 8 12 bytes);
      price = from_le_bytes (slice 12 16 bytes);
      k = get_or bytes 16 0;
    })
    else err (wrong_length (length bytes) snapshot_len)

-- The two sequence fields agree.
unfoldable pub is_canonical : Bytes → Bool
is_canonical bytes = length bytes == snapshot_len && bytes_eq (slice 4 8 bytes) (slice 8 12 bytes)

-- The sum of a u32 and 86,400, in u64: it cannot wrap.
unfoldable pub recyclable_at : Snapshot → ℕ
recyclable_at s = s.ts + ticker_life_secs
