-- ===== src/Crypto/Schnorr.antt =====
-- node/core/src/crypto.rs: keys and Bitcoin Cash's Schnorr signatures over the curve of k256.
pub mod Verify
use ticker_cash.Prelude.{
  ℕ, zero, suc, ◌≡◌, Bool, true, false, not, Option, none, some, [], ◌∷◌, ◌++◌, take, drop,
  replicate, if◌then◌else◌, Result, ok, err, ◌>>=◌, ok_or,
}
use mathlib.Core.Option
use ticker_cash.Bytes.{Bytes, bytes_eq}
use ticker_cash.External.{External}
use ticker_cash.Crypto.Hash.{sha256}

pub data KeyError : Type 0 where
  invalid_private_key invalid_public_key invalid_signature : KeyError

-- `b"Schnorr+SHA256  "`
abbrev extra : Bytes
extra =
    0x53 ∷ 0x63 ∷ 0x68 ∷ 0x6e ∷ 0x6f ∷ 0x72 ∷ 0x72 ∷ 0x2b ∷ 0x53 ∷ 0x48 ∷ 0x41 ∷ 0x32 ∷ 0x35 ∷ 0x36
    ∷ 0x20 ∷ 0x20 ∷ []

module _ (x : External) where
  open x use {
    hmac_sha256, Scalar, scalar_from_repr, scalar_to_repr, scalar_reduce, scalar_is_zero,
    scalar_add, scalar_mul, scalar_neg, Point, Affine, generator, point_mul, point_sub, is_identity,
    to_affine, from_affine, decode_point, encode_compressed, affine_x, affine_y, FieldElement,
    field_from_bytes, field_sqrt,
  }

  -- A scalar that is there and is not zero.
  unfoldable pub nonzero : Option Scalar → Option Scalar
  nonzero none = none
  nonzero (some d) = if scalar_is_zero d then none else some d

  unfoldable pub secret_scalar : Bytes → Result KeyError Scalar
  unfolding nonzero
  secret_scalar privkey = ok_or (nonzero (scalar_from_repr privkey)) invalid_private_key

  unfoldable pub point_from_compressed : Bytes → Result KeyError Affine
  point_from_compressed pubkey = ok_or (decode_point pubkey) invalid_public_key

  unfoldable pub derive_pubkey : Bytes → Result KeyError Bytes
  derive_pubkey privkey = do
    d ← secret_scalar privkey
    ok (encode_compressed (to_affine (point_mul generator d)))

  abbrev has_sqrt : Option FieldElement → Bool
  has_sqrt none = false
  has_sqrt (some fe) = elim (field_sqrt fe) [ none ↦ false | some root ↦ true ]

  unfoldable pub y_is_quadratic_residue : Affine → Bool
  y_is_quadratic_residue point = has_sqrt (field_from_bytes (affine_y point))

  -- The `loop` of the nonce, from the key and the value of the HMAC state. `none`: no candidate in
  -- `fuel` rounds.
  unfoldable pub nonce_loop : ℕ → Bytes → Bytes → Option Scalar
  unfolding nonzero
  nonce_loop zero k v = none
  nonce_loop (suc fuel) k v =
      let v' = hmac_sha256 k v in
      let k' = hmac_sha256 k (v' ++ (0x00 ∷ [])) in
      let rest = nonce_loop fuel k' (hmac_sha256 k' v') in
      elim (nonzero (scalar_from_repr v')) [ some candidate ↦ some candidate | none ↦ rest ]

  unfoldable pub rfc6979_nonce : ℕ → Bytes → Bytes → Option Scalar
  rfc6979_nonce fuel privkey msg32 =
      let v0 : Bytes = replicate 32 0x01 in
      let k0 : Bytes = replicate 32 0x00 in
      let tail : Bytes = privkey ++ (msg32 ++ extra) in
      let k1 = hmac_sha256 k0 (v0 ++ (0x00 ∷ tail)) in
      let v1 = hmac_sha256 k1 v0 in
      let k2 = hmac_sha256 k1 (v1 ++ (0x01 ∷ tail)) in nonce_loop fuel k2 (hmac_sha256 k2 v1)

  unfoldable pub challenge : Bytes → Bytes → Bytes → Scalar
  challenge r pubkey msg32 = scalar_reduce (sha256 x (r ++ (pubkey ++ msg32)))

  -- The signature from the secret scalar, its public key and the nonce.
  unfoldable pub sign_with : Scalar → Bytes → Bytes → Scalar → Bytes
  sign_with d pubkey msg32 nonce =
      let r_point = to_affine (point_mul generator nonce) in
      let k = if y_is_quadratic_residue r_point then nonce else scalar_neg nonce in
      let r = affine_x r_point in
      let e = challenge r pubkey msg32 in r ++ scalar_to_repr (scalar_add k (scalar_mul e d))

  -- `none`: the nonce loop found no candidate within the fuel.
  unfoldable pub schnorr_sign : ℕ → Bytes → Bytes → Option (Result KeyError Bytes)
  schnorr_sign fuel privkey msg32 = elim (secret_scalar privkey) [
    | err e ↦ some (err e)
    | ok d ↦ elim (derive_pubkey privkey) [
      | err e ↦ some (err e)
      | ok pubkey ↦
          Option.map (λ nonce. ok (sign_with d pubkey msg32 nonce))
            (rfc6979_nonce fuel privkey msg32)
    ]
  ]

  -- The last checks of the verifier, at the point that the signature claims to be its nonce's.
  unfoldable pub accepts_point : Point → Bytes → Bool
  accepts_point rp r =
      if is_identity rp
      then false
      else if not (y_is_quadratic_residue (to_affine rp))
      then false
      else bytes_eq (affine_x (to_affine rp)) r

  unfoldable pub schnorr_verify : Bytes → Bytes → Bytes → Result KeyError Bool
  schnorr_verify sig pubkey msg32 = do
    p ← point_from_compressed pubkey
    s ← ok_or (scalar_from_repr (drop 32 sig)) invalid_signature
    let r = take 32 sig
    let e = challenge r pubkey msg32
    ok (accepts_point (point_sub (point_mul generator s) (point_mul (from_affine p) e)) r)
