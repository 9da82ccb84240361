-- ===== src/Commit/HeadCommit.antt =====
-- node/core/src/commit.rs: the methods of `HeadCommit`.
use ticker_cash.Prelude.{ok, err, ◌>>=◌, ◌++◌, length, slice, drop, ◌==◌, if◌then◌else◌}
use ticker_cash.Bytes.{Bytes}
use ticker_cash.Commit.Types.{HeadCommit, Decoded, wrong_length, snapshot_len, head_commit_len}
use ticker_cash.Commit.Snapshot

unfoldable pub encode : HeadCommit → Bytes
unfolding Snapshot.encode
encode h = Snapshot.encode h.snapshot ++ h.table_hash

unfoldable pub decode : Bytes → Decoded HeadCommit
unfolding Snapshot.decode
decode bytes =
    if length bytes == head_commit_len
    then (do
      snapshot ← Snapshot.decode (slice 0 snapshot_len bytes)
      ok (record { snapshot = snapshot; table_hash = drop snapshot_len bytes }))
    else err (wrong_length (length bytes) head_commit_len)
