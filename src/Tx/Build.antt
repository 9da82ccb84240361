-- ===== src/Tx/Build.antt =====
-- node/core/src/tx/build.rs: the transactions of the oracle. The children model the records, the
-- selection of statements and approvals, and the builders.
pub mod Types
pub mod Sort
pub mod Median
pub mod Select
pub mod Sign
pub mod Update
pub mod Rotate
pub mod Genesis
