-- ===== src/Statement/Signed.antt =====
-- A signed statement and a signed approval verify under the signer's public key.
use mathlib.Core.Option
use ticker_cash.Prelude.{
  ℕ, true, ◌≡◌, refl, ap, sym, ◌∙◌, Option, none, some, length, Result, ok, err, ok-injective,
  ==_iff,
}
use ticker_cash.Bytes.{Bytes}
use ticker_cash.Bytes.Laws.{bytes_eq_iff}
use ticker_cash.External.{External}
use ticker_cash.Crypto.Hash.{sha256}
use ticker_cash.Crypto.Schnorr.{KeyError, schnorr_sign, schnorr_verify, derive_pubkey}
use ticker_cash.Crypto.Schnorr.Verify.{CurveLaws, schnorr_sign-verifies}
use ticker_cash.Statement.{
  Statement, Approval, map_ok, message, approval_message, try_array, decodes_to, decode_array, sign,
  sig_bytes, verify, sign_approval, approval_sig_bytes, approval_pubkey_bytes, names_rotation,
  verify_approval,
}

module _ (x : External) (laws : CurveLaws x)
    (hex : (bytes : Bytes) → x.hex_decode (x.hex_encode bytes) ≡ some bytes) where
  decode_array-hex_encode :
      (n : ℕ) (bytes : Bytes)
      → length bytes ≡ n
      → decode_array x n (x.hex_encode bytes) ≡ some bytes
  unfolding decode_array try_array
  decode_array-hex_encode n bytes len = rw (hex bytes, (==_iff (length bytes) n).1 len) refl

  decodes_to-hex_encode :
      (bytes : Bytes) → decodes_to (x.hex_decode (x.hex_encode bytes)) bytes ≡ true
  decodes_to-hex_encode bytes = rw (hex bytes) ((bytes_eq_iff bytes bytes).1 refl)

  -- Both signing functions sign first; what they return holds the signature.
  signed_by :
      {A : Type 0} (f : Bytes → A) (o : Option (Result KeyError Bytes)) {s : A}
      → Option.map (map_ok f) o ≡ some (ok s)
      → (sig : Bytes) × (o ≡ some (ok sig)) × (f sig ≡ s)
  signed_by f none h = cc
  signed_by f (some (err e)) h = cc
  signed_by f (some (ok sig)) h = (sig, refl, cc)

  abbrev signed_statement : Bytes → (source ts price : ℕ) → Statement
  signed_statement sig source ts price = record {
    source = source;
    ts = ts;
    price = price;
    sig = x.hex_encode sig;
  }

  sig_bytes-signed :
      (sig : Bytes) (source ts price : ℕ)
      → length sig ≡ 64
      → sig_bytes x (signed_statement sig source ts price) ≡ some sig
  unfolding sig_bytes
  sig_bytes-signed sig source ts price len = decode_array-hex_encode 64 sig len

  verify_signed :
      (sig pubkey : Bytes) (source ts price : ℕ)
      → length sig ≡ 64
      → schnorr_verify x sig pubkey (sha256 x (message source ts price)) ≡ ok true
      → verify x (signed_statement sig source ts price) pubkey ≡ true
  unfolding verify
  verify_signed sig pubkey source ts price len accepted =
      rw (verify, sig_bytes-signed sig source ts price len, accepted) refl

  -- Where hexadecimal text decodes to what was encoded, a statement that `sign` returns verifies under
  -- the public key of the private key, and has the source, the timestamp and the price that were given.
  pub verify-sign :
      (fuel : ℕ) (privkey : Bytes) (source ts price : ℕ) (s : Statement)
      → sign x fuel privkey source ts price ≡ some (ok s)
      → (pubkey : Bytes) × (derive_pubkey x privkey ≡ ok pubkey)
        × (verify x s pubkey ≡ true)
        × (s.source ≡ source)
        × (s.ts ≡ ts)
        × (s.price ≡ price)
  unfolding sign
  verify-sign fuel privkey source ts price s e =
      let digest = sha256 x (message source ts price) in
      let (sig, signed, same) =
        signed_by (λ sig. signed_statement sig source ts price) (schnorr_sign x fuel privkey digest)
          e in
      let (pubkey, derived, len, accepted) =
        schnorr_sign-verifies x laws fuel privkey digest sig signed in
      (
        pubkey,
        derived,
        rw (← same) (verify_signed sig pubkey source ts price len accepted),
        ap (λ s. s.source) (sym same),
        ap (λ s. s.ts) (sym same),
        ap (λ s. s.price) (sym same),
      )

  abbrev signed_approval : Bytes → (pubkey old lock tail : Bytes) → Approval
  signed_approval sig pubkey old lock tail = record {
    pubkey = x.hex_encode pubkey;
    old_table_hash = x.hex_encode old;
    next_lock = x.hex_encode lock;
    tail = x.hex_encode tail;
    sig = x.hex_encode sig;
  }

  names_rotation-signed :
      (sig pubkey old lock tail : Bytes)
      → names_rotation x (signed_approval sig pubkey old lock tail) old lock tail ≡ true
  unfolding names_rotation
  names_rotation-signed sig pubkey old lock tail =
      rw (decodes_to-hex_encode old, decodes_to-hex_encode lock, decodes_to-hex_encode tail) refl

  approval_sig_bytes-signed :
      (sig pubkey old lock tail : Bytes)
      → length sig ≡ 64
      → approval_sig_bytes x (signed_approval sig pubkey old lock tail) ≡ some sig
  unfolding approval_sig_bytes
  approval_sig_bytes-signed sig pubkey old lock tail len = decode_array-hex_encode 64 sig len

  approval_pubkey_bytes-signed :
      (sig pubkey old lock tail : Bytes)
      → length pubkey ≡ 33
      → approval_pubkey_bytes x (signed_approval sig pubkey old lock tail) ≡ some pubkey
  unfolding approval_pubkey_bytes
  approval_pubkey_bytes-signed sig pubkey old lock tail len = decode_array-hex_encode 33 pubkey len

  verify_signed_approval :
      (sig pubkey category old lock tail : Bytes)
      → length sig ≡ 64
      → length pubkey ≡ 33
      → schnorr_verify x sig pubkey (sha256 x (approval_message category old lock tail)) ≡ ok true
      → verify_approval x (signed_approval sig pubkey old lock tail) category old lock tail ≡ true
  unfolding verify_approval
  verify_signed_approval sig pubkey category old lock tail len pk_len accepted =
      rw
        (
          verify_approval,
          approval_sig_bytes-signed sig pubkey old lock tail len,
          approval_pubkey_bytes-signed sig pubkey old lock tail pk_len,
          names_rotation-signed sig pubkey old lock tail,
          accepted,
        )
        refl

  -- Where hexadecimal text decodes to what was encoded, an approval that `sign_approval` returns for
  -- the public key of the private key, of 33 bytes, verifies for the rotation that it was signed for.
  pub verify_approval-sign_approval :
      (fuel : ℕ) (privkey pubkey category old lock tail : Bytes) (a : Approval)
      → derive_pubkey x privkey ≡ ok pubkey
      → length pubkey ≡ 33
      → sign_approval x fuel privkey pubkey category old lock tail ≡ some (ok a)
      → verify_approval x a category old lock tail ≡ true
  unfolding sign_approval
  verify_approval-sign_approval fuel privkey pubkey category old lock tail a derived pk_len e =
      let digest = sha256 x (approval_message category old lock tail) in
      let (sig, signed, same) =
        signed_by (λ sig. signed_approval sig pubkey old lock tail)
          (schnorr_sign x fuel privkey digest) e in
      let (key, derived', len, accepted) =
        schnorr_sign-verifies x laws fuel privkey digest sig signed in
      let same_key : key ≡ pubkey = ok-injective (sym derived' ∙ derived) in
      rw (← same) (
        verify_signed_approval sig pubkey category old lock tail len pk_len
          (rw same_key at accepted))
