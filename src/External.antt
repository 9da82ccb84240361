-- ===== src/External.antt =====
-- What the program takes from other crates: hashes (sha2, ripemd, hmac), secp256k1 (k256) and
-- hexadecimal text (hex). They are operations of a record; the laws that a theorem relies on are
-- its hypotheses.
use ticker_cash.Prelude.{Bool, Option}
use ticker_cash.Bytes.{Bytes}
use ticker_cash.Text.{Text}

pub record External : Type 1 where
  -- sha2, ripemd, hmac
  pub sha256_digest : Bytes → Bytes
  pub ripemd160_digest : Bytes → Bytes
  pub hmac_sha256 : Bytes → Bytes → Bytes
  -- hex
  pub hex_encode : Bytes → Text
  pub hex_decode : Text → Option Bytes
  -- k256: scalars modulo the curve order
  pub Scalar : Type 0
  pub scalar_from_repr : Bytes → Option Scalar
  pub scalar_to_repr : Scalar → Bytes
  pub scalar_reduce : Bytes → Scalar
  pub scalar_is_zero : Scalar → Bool
  pub scalar_add : Scalar → Scalar → Scalar
  pub scalar_mul : Scalar → Scalar → Scalar
  pub scalar_neg : Scalar → Scalar
  -- k256: points, and their affine coordinates
  pub Point : Type 0
  pub Affine : Type 0
  pub generator : Point
  pub point_mul : Point → Scalar → Point
  pub point_sub : Point → Point → Point
  pub is_identity : Point → Bool
  pub to_affine : Point → Affine
  pub from_affine : Affine → Point
  pub decode_point : Bytes → Option Affine
  pub encode_compressed : Affine → Bytes
  pub affine_x : Affine → Bytes
  pub affine_y : Affine → Bytes
  -- k256: the field, of which only the square root test is used
  pub FieldElement : Type 0
  pub field_from_bytes : Bytes → Option FieldElement
  pub field_sqrt : FieldElement → Option FieldElement
