-- ===== src/Commit/Types.antt =====
-- node/core/src/commit.rs: the records, the error and the result of decoding.
use ticker_cash.Prelude.{ℕ, Result}
use ticker_cash.Bytes.{Bytes}

abbrev pub snapshot_len : ℕ
snapshot_len = 17

abbrev pub head_commit_len : ℕ
head_commit_len = 37

-- ts, seq and price are u32, k is u8.
pub record Snapshot : Type 0 where
  pub ts : ℕ
  pub seq : ℕ
  pub price : ℕ
  pub k : ℕ

pub record HeadCommit : Type 0 where
  pub snapshot : Snapshot
  pub table_hash : Bytes

-- `Length { got, want }`
pub data CommitError : Type 0 where
  wrong_length : ℕ → ℕ → CommitError

-- `Result<A, CommitError>`
abbrev pub Decoded : Type 0 → Type 0
Decoded A = Result CommitError A
