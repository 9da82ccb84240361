-- ===== src/Constants.antt =====
-- node/core/src/lib.rs: the covenant's literals and the builder's policy.
use ticker_cash.Prelude.{ℕ}

abbrev pub quorum : ℕ
quorum = 7

abbrev pub tickers_per_update : ℕ
tickers_per_update = 2

abbrev pub ticker_sats : ℕ
ticker_sats = 792

abbrev pub ticker_life_secs : ℕ
ticker_life_secs = 86_400

abbrev pub legacy_ticker_life_secs : ℕ
legacy_ticker_life_secs = 3_600

abbrev pub seq_ahead_secs : ℕ
seq_ahead_secs = 21_600

abbrev pub fee_cap_base_sats : ℕ
fee_cap_base_sats = 1_000

abbrev pub fee_cap_per_unlock_byte : ℕ
fee_cap_per_unlock_byte = 2

abbrev pub table_entry_len : ℕ
table_entry_len = 34

abbrev pub max_rows : ℕ
max_rows = 127

abbrev pub statement_tag : ℕ
statement_tag = 0x4e

abbrev pub approval_tag : ℕ
approval_tag = 0x52

abbrev pub sequence_timelock : ℕ
sequence_timelock = 0xffff_fffe

abbrev pub max_recycle_per_update : ℕ
max_recycle_per_update = 10
