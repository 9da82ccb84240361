-- ===== src/Commit.antt =====
-- node/core/src/commit.rs: the commitments that the head NFT and the Tickers carry, the minute
-- clock and the rounding of a price to cents. Unsigned integers are numbers with their range as a
-- hypothesis where one matters, `as u32` is written out, and arrays are lists of bytes.
pub mod Types
pub mod Snapshot
pub mod HeadCommit
pub mod Legacy
pub mod Clock
pub mod RoundTrip
pub mod Migrated
