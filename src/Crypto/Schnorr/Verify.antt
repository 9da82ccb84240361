-- ===== src/Crypto/Schnorr/Verify.antt =====
-- A signature of `schnorr_sign` is accepted by `schnorr_verify` under the signer's public key.
use ticker_cash.Prelude.{
  ℕ, zero, suc, ◌≡◌, refl, sym, ap, ◌∙◌, true, false, ◌⊎◌, inl, inr, Option, none, some, [], ◌∷◌,
  ◌++◌, take, drop, length, if◌then◌else◌, ok, err, ok_or-eq-ok, arith, Bool-cases, Result-cases,
  map-eq-some, ok-injective, take-append, drop-append, length-append,
}
use ticker_cash.Bytes.{Bytes}
use ticker_cash.Bytes.Laws.{bytes_eq_iff}
use ticker_cash.External.{External}
use ticker_cash.Crypto.Schnorr.{
  KeyError, invalid_private_key, nonzero, secret_scalar, point_from_compressed, derive_pubkey,
  y_is_quadratic_residue, nonce_loop, rfc6979_nonce, challenge, sign_with, schnorr_sign,
  accepts_point, schnorr_verify,
}

module _ (x : External) where
  open x use {
    Scalar, scalar_from_repr, scalar_to_repr, scalar_is_zero, scalar_add, scalar_mul, scalar_neg,
    Point, Affine, generator, point_mul, point_sub, is_identity, to_affine, from_affine,
    decode_point, encode_compressed, affine_x,
  }

  -- What the signatures rely on of k256: encodings, the module laws of the curve group of prime order,
  -- and that exactly one of a point and its negative has a square y, with one x for both.
  pub record CurveLaws : Type 0 where
    pub repr_read : (s : Scalar) → scalar_from_repr (scalar_to_repr s) ≡ some s
    pub repr_len : (s : Scalar) → length (scalar_to_repr s) ≡ 32
    pub x_len : (a : Affine) → length (affine_x a) ≡ 32
    pub affine_back : (p : Point) → from_affine (to_affine p) ≡ p
    pub decode_encode :
        (d : Scalar)
        → scalar_is_zero d ≡ false
        → decode_point (encode_compressed (to_affine (point_mul generator d)))
          ≡ some (to_affine (point_mul generator d))
    pub mul_mul :
        (p : Point) (d e : Scalar) → point_mul (point_mul p d) e ≡ point_mul p (scalar_mul e d)
    pub mul_sub :
        (p : Point) (a b : Scalar)
        → point_sub (point_mul p (scalar_add a b)) (point_mul p b) ≡ point_mul p a
    pub identity_iff : (k : Scalar) → is_identity (point_mul generator k) ≡ scalar_is_zero k
    pub neg_zero : (k : Scalar) → scalar_is_zero (scalar_neg k) ≡ scalar_is_zero k
    pub neg_x :
        (k : Scalar)
        → affine_x (to_affine (point_mul generator (scalar_neg k)))
          ≡ affine_x (to_affine (point_mul generator k))
    pub neg_residue :
        (k : Scalar)
        → scalar_is_zero k ≡ false
        → y_is_quadratic_residue x (to_affine (point_mul generator k)) ≡ false
        → y_is_quadratic_residue x (to_affine (point_mul generator (scalar_neg k))) ≡ true

module _ (x : External) (laws : CurveLaws x) where
  open x use {
    Scalar, scalar_from_repr, scalar_to_repr, scalar_is_zero, scalar_add, scalar_mul, scalar_neg,
    Point, Affine, generator, point_mul, point_sub, is_identity, to_affine, from_affine,
    decode_point, encode_compressed, affine_x,
  }

  nonzero-eq-some :
      (o : Option Scalar) (d : Scalar) → nonzero x o ≡ some d → scalar_is_zero d ≡ false
  unfolding nonzero
  nonzero-eq-some none d e = cc
  nonzero-eq-some (some c) d e = ground arith

  -- The nonce that the signature uses: not zero, its point has a square y and the x that is signed.
  abbrev IsNonce : Scalar → Scalar → Type 0
  IsNonce nonce k =
      (scalar_is_zero k ≡ false)
      × (y_is_quadratic_residue x (to_affine (point_mul generator k)) ≡ true)
      × (affine_x (to_affine (point_mul generator k))
          ≡ affine_x (to_affine (point_mul generator nonce)))

  abbrev chosen : Scalar → Scalar
  chosen nonce =
      if y_is_quadratic_residue x (to_affine (point_mul generator nonce))
      then nonce
      else scalar_neg nonce

  chosen-IsNonce : (nonce : Scalar) → scalar_is_zero nonce ≡ false → IsNonce nonce (chosen nonce)
  chosen-IsNonce nonce h =
      elim (Bool-cases (y_is_quadratic_residue x (to_affine (point_mul generator nonce)))) [
        | inl square ↦ rw square (h, square, refl)
        | inr other ↦
            rw other (laws.neg_zero nonce ∙ h, laws.neg_residue nonce h other, laws.neg_x nonce)
      ]

  accepts_nonce :
      (nonce k : Scalar)
      → IsNonce nonce k
      → accepts_point x (point_mul generator k) (affine_x (to_affine (point_mul generator nonce)))
        ≡ true
  unfolding accepts_point
  accepts_nonce nonce k (nz, square, same) =
      rw (laws.identity_iff k, nz, square, same) ((bytes_eq_iff _ _).1 refl)

  -- What the verifier computes from the parts of a signature: the nonce's point.
  recovered :
      (d k e : Scalar)
      → point_sub
          (point_mul generator (scalar_add k (scalar_mul e d)))
          (point_mul (from_affine (to_affine (point_mul generator d))) e)
        ≡ point_mul generator k
  recovered d k e =
      rw (laws.affine_back (point_mul generator d), laws.mul_mul generator d e)
        (laws.mul_sub generator k (scalar_mul e d))

  take_x : (a : Affine) (rest : Bytes) → take 32 (affine_x a ++ rest) ≡ affine_x a
  take_x a rest =
      ap (λ n. take n (affine_x a ++ rest)) (sym (laws.x_len a)) ∙ take-append (affine_x a) rest

  drop_x : (a : Affine) (rest : Bytes) → drop 32 (affine_x a ++ rest) ≡ rest
  drop_x a rest =
      ap (λ n. drop n (affine_x a ++ rest)) (sym (laws.x_len a)) ∙ drop-append (affine_x a) rest

  verify-sign_with :
      (d nonce : Scalar) (msg32 : Bytes)
      → scalar_is_zero d ≡ false
      → scalar_is_zero nonce ≡ false
      → let pubkey = encode_compressed (to_affine (point_mul generator d)) in
        schnorr_verify x (sign_with x d pubkey msg32 nonce) pubkey msg32 ≡ ok true
  unfolding schnorr_verify sign_with point_from_compressed
  verify-sign_with d nonce msg32 hd hn =
      let pubkey = encode_compressed (to_affine (point_mul generator d)) in
      let r = affine_x (to_affine (point_mul generator nonce)) in
      let e = challenge x r pubkey msg32 in
      rw
        (
          laws.decode_encode d hd,
          drop_x (to_affine (point_mul generator nonce))
              (scalar_to_repr (scalar_add (chosen nonce) (scalar_mul e d))),
          laws.repr_read (scalar_add (chosen nonce) (scalar_mul e d)),
          take_x (to_affine (point_mul generator nonce))
              (scalar_to_repr (scalar_add (chosen nonce) (scalar_mul e d))),
          recovered d (chosen nonce) e,
        )
        (ap ok (accepts_nonce nonce (chosen nonce) (chosen-IsNonce nonce hn)))

  length-sign_with :
      (d nonce : Scalar) (pubkey msg32 : Bytes) → length (sign_with x d pubkey msg32 nonce) ≡ 64
  unfolding sign_with
  length-sign_with d nonce pubkey msg32 =
      rw
        (
          length-append (affine_x (to_affine (point_mul generator nonce))) (
              scalar_to_repr (
                scalar_add (chosen nonce) (
                  scalar_mul
                    (challenge x (affine_x (to_affine (point_mul generator nonce))) pubkey msg32)
                    d))),
          laws.x_len (to_affine (point_mul generator nonce)),
          laws.repr_len (
              scalar_add (chosen nonce) (
                scalar_mul
                  (challenge x (affine_x (to_affine (point_mul generator nonce))) pubkey msg32) d)),
        )
        refl

  first_of :
      (o rest : Option Scalar) (nonce : Scalar)
      → elim o [ some candidate ↦ some candidate | none ↦ rest ] ≡ some nonce
      → (o ≡ some nonce) ⊎ (rest ≡ some nonce)
  first_of none rest nonce e = inr e
  first_of (some c) rest nonce e = inl e

  nonce_loop-nonzero :
      (fuel : ℕ) (k v : Bytes) (nonce : Scalar)
      → nonce_loop x fuel k v ≡ some nonce
      → scalar_is_zero nonce ≡ false
  unfolding nonce_loop
  nonce_loop-nonzero zero k v nonce e = cc
  nonce_loop-nonzero (suc fuel) k v nonce e =
      let v' = x.hmac_sha256 k v in
      let k' = x.hmac_sha256 k (v' ++ (0x00 ∷ [])) in
      elim (first_of (nonzero x (scalar_from_repr v')) (nonce_loop x fuel k' (x.hmac_sha256 k' v'))
        nonce e) [
          | inl found ↦ nonzero-eq-some (scalar_from_repr v') nonce found
          | inr later ↦ nonce_loop-nonzero fuel k' (x.hmac_sha256 k' v') nonce later
        ]

  rfc6979_nonce-nonzero :
      (fuel : ℕ) (privkey msg32 : Bytes) (nonce : Scalar)
      → rfc6979_nonce x fuel privkey msg32 ≡ some nonce
      → scalar_is_zero nonce ≡ false
  unfolding rfc6979_nonce
  rfc6979_nonce-nonzero fuel privkey msg32 nonce e = nonce_loop-nonzero fuel _ _ nonce e

  -- A secret scalar is not zero, and the public key is its point's encoding.
  secret_scalar-nonzero :
      (privkey : Bytes) (d : Scalar) → secret_scalar x privkey ≡ ok d → scalar_is_zero d ≡ false
  unfolding secret_scalar
  secret_scalar-nonzero privkey d e =
      nonzero-eq-some (scalar_from_repr privkey) d (ok_or-eq-ok _ invalid_private_key e)

  derive_pubkey_lem :
      (privkey : Bytes) (d : Scalar)
      → secret_scalar x privkey ≡ ok d
      → derive_pubkey x privkey ≡ ok (encode_compressed (to_affine (point_mul generator d)))
  unfolding derive_pubkey
  derive_pubkey_lem privkey d e = rw e refl

  secret_scalar_cases :
      (privkey : Bytes)
      → ((d : Scalar) × (secret_scalar x privkey ≡ ok d))
        ⊎ ((e : KeyError) × (secret_scalar x privkey ≡ err e))
  secret_scalar_cases privkey = Result-cases (secret_scalar x privkey)

  -- When `schnorr_sign` returns a signature, `derive_pubkey` returns a public key of the private key,
  -- the signature has 64 bytes, and `schnorr_verify` accepts it under that public key for the message.
  pub schnorr_sign-verifies :
      (fuel : ℕ) (privkey msg32 sig : Bytes)
      → schnorr_sign x fuel privkey msg32 ≡ some (ok sig)
      → (pubkey : Bytes) × (derive_pubkey x privkey ≡ ok pubkey)
        × (length sig ≡ 64)
        × (schnorr_verify x sig pubkey msg32 ≡ ok true)
  unfolding schnorr_sign
  schnorr_sign-verifies fuel privkey msg32 sig e = elim (secret_scalar_cases privkey) [
    | inr (bad, refused) ↦ let h = rw (refused, schnorr_sign) at e in cc
    | inl (d, secret) ↦
        let pubkey = encode_compressed (to_affine (point_mul generator d)) in
        let derived = derive_pubkey_lem privkey d secret in
        let (nonce, found, same) =
          map-eq-some (λ nonce. ok (sign_with x d pubkey msg32 nonce))
            (rfc6979_nonce x fuel privkey msg32) (rw (secret, derived, schnorr_sign) at e) in
        let is_sig = ok-injective same in
        (
          pubkey,
          derived,
          rw (← is_sig) (length-sign_with d nonce pubkey msg32),
          rw (← is_sig) (
              verify-sign_with d nonce msg32 (secret_scalar-nonzero privkey d secret)
                (rfc6979_nonce-nonzero fuel privkey msg32 nonce found)),
        )
  ]
