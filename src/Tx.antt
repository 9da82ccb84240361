-- ===== src/Tx.antt =====
-- node/core/src/tx: the transaction encoder, scripts, covenant bytes and builders.
pub mod Types
pub mod Encode
pub mod Script
pub mod Reader
pub mod Reads
pub mod RoundTrip
pub mod Size
pub mod Sighash
pub mod Covenant
pub mod Cashaddr
pub mod Build
