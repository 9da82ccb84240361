-- ===== src/Crypto/Hash.antt =====
-- node/core/src/crypto.rs: the hashes.

use ticker_cash.Bytes.{Bytes}
use ticker_cash.External.{External}

module _ (x : External) where
  open x use {sha256_digest, ripemd160_digest}

  unfoldable pub sha256 : Bytes → Bytes
  sha256 bytes = sha256_digest bytes

  unfoldable pub double_sha256 : Bytes → Bytes
  unfolding sha256
  double_sha256 bytes = sha256 (sha256 bytes)

  unfoldable pub hash160 : Bytes → Bytes
  hash160 bytes = ripemd160_digest (sha256_digest bytes)
