-- ===== src/Crypto.antt =====
-- node/core/src/crypto.rs: hashes, keys and signatures.
pub mod Hash
pub mod Schnorr
