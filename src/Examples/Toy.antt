-- ===== src/Examples/Toy.antt =====
-- Stand-ins for the outside crates that compute: the group of three elements for the curve, a sum for
-- the hashes, and the bytes themselves for hexadecimal text.
use ticker_cash.Prelude.{
  ℕ, ◌+◌, ◌%◌, ◌≡◌, refl, ap, Bool, true, false, Option, none, some, [], ◌∷◌, ◌++◌, get_or,
  replicate, ◌==◌, if◌then◌else◌,
}
use ticker_cash.Bytes.{Bytes}
use ticker_cash.External.{External}
use ticker_cash.Crypto.Schnorr.{y_is_quadratic_residue}
use ticker_cash.Crypto.Schnorr.Verify.{CurveLaws}

pub data Three : Type 0 where
  zero one two : Three

abbrev pub to_byte : Three → ℕ
to_byte zero = 0
to_byte one = 1
to_byte two = 2

abbrev pub from_byte : ℕ → Option Three
from_byte b =
    if b == 0 then some zero else if b == 1 then some one else if b == 2 then some two else none

abbrev pub negate : Three → Three
negate zero = zero
negate one = two
negate two = one

abbrev pub add : Three → Three → Three
add zero b = b
add one zero = one
add one one = two
add one two = zero
add two zero = two
add two one = zero
add two two = one

abbrev pub times : Three → Three → Three
times zero b = zero
times one b = b
times two b = negate b

abbrev pub abscissa : Three → ℕ
abscissa zero = 0
abscissa one = 1
abscissa two = 1

abbrev pub is_zero : Three → Bool
is_zero zero = true
is_zero one = false
is_zero two = false

abbrev pub sum_of : Bytes → ℕ
sum_of [] = 0
sum_of (b ∷ rest) = b + sum_of rest

abbrev pub toy : External
toy = record {
  sha256_digest = λ bytes. replicate 31 0 ++ (sum_of bytes % 256 ∷ []);
  ripemd160_digest = λ bytes. replicate 19 0 ++ (sum_of bytes % 256 ∷ []);
  hmac_sha256 = λ key bytes. replicate 31 0 ++ (1 ∷ []);
  hex_encode = λ bytes. bytes;
  hex_decode = λ text. some text;
  Scalar = Three;
  scalar_from_repr = λ bytes. from_byte (get_or bytes 31 3);
  scalar_to_repr = λ s. replicate 31 0 ++ (to_byte s ∷ []);
  scalar_reduce = λ bytes.
      (if get_or bytes 31 0 % 3 == 0
        then zero
        else if get_or bytes 31 0 % 3 == 1
        then one
        else two);
  scalar_is_zero = is_zero;
  scalar_add = add;
  scalar_mul = times;
  scalar_neg = negate;
  Point = Three;
  Affine = Three;
  generator = one;
  point_mul = times;
  point_sub = λ p q. add p (negate q);
  is_identity = is_zero;
  to_affine = λ p. p;
  from_affine = λ p. p;
  decode_point = λ bytes. from_byte (get_or bytes 32 3);
  encode_compressed = λ p. 2 ∷ (replicate 31 0 ++ (to_byte p ∷ []));
  affine_x = λ p. replicate 31 0 ++ (abscissa p ∷ []);
  affine_y = λ p. to_byte p ∷ [];
  FieldElement = Three;
  field_from_bytes = λ bytes. from_byte (get_or bytes 0 3);
  field_sqrt = λ f. elim f [ zero ↦ some zero | one ↦ some one | two ↦ none ];
}

read_back : (s : Three) → from_byte (get_or (replicate 31 0 ++ (to_byte s ∷ [])) 31 3) ≡ some s
read_back zero = refl
read_back one = refl
read_back two = refl

decode_back :
    (d : Three)
    → from_byte (get_or (2 ∷ (replicate 31 0 ++ (to_byte (times one d) ∷ []))) 32 3)
      ≡ some (times one d)
decode_back zero = refl
decode_back one = refl
decode_back two = refl

twice : (p d e : Three) → times (times p d) e ≡ times p (times e d)
twice zero d e = refl
twice one zero zero = refl
twice one zero one = refl
twice one zero two = refl
twice one one zero = refl
twice one one one = refl
twice one one two = refl
twice one two zero = refl
twice one two one = refl
twice one two two = refl
twice two zero zero = refl
twice two zero one = refl
twice two zero two = refl
twice two one zero = refl
twice two one one = refl
twice two one two = refl
twice two two zero = refl
twice two two one = refl
twice two two two = refl

difference : (p a b : Three) → add (times p (add a b)) (negate (times p b)) ≡ times p a
difference zero a b = refl
difference one zero zero = refl
difference one zero one = refl
difference one zero two = refl
difference one one zero = refl
difference one one one = refl
difference one one two = refl
difference one two zero = refl
difference one two one = refl
difference one two two = refl
difference two zero zero = refl
difference two zero one = refl
difference two zero two = refl
difference two one zero = refl
difference two one one = refl
difference two one two = refl
difference two two zero = refl
difference two two one = refl
difference two two two = refl

negate_zero : (k : Three) → is_zero (negate k) ≡ is_zero k
negate_zero zero = refl
negate_zero one = refl
negate_zero two = refl

negate_x : (k : Three) → abscissa (times one (negate k)) ≡ abscissa (times one k)
negate_x zero = refl
negate_x one = refl
negate_x two = refl

one_square :
    (k : Three)
    → is_zero k ≡ false
    → y_is_quadratic_residue toy (times one k) ≡ false
    → y_is_quadratic_residue toy (times one (negate k)) ≡ true
unfolding y_is_quadratic_residue
one_square zero h k = cc
one_square one h k = cc
one_square two h k = refl

pub toy-CurveLaws : CurveLaws toy
toy-CurveLaws = record {
  repr_read = read_back;
  repr_len = λ s. refl;
  x_len = λ a. refl;
  affine_back = λ p. refl;
  decode_encode = λ d h. decode_back d;
  mul_mul = twice;
  mul_sub = difference;
  identity_iff = λ k. refl;
  neg_zero = negate_zero;
  neg_x = λ k. ap (λ n. replicate 31 0 ++ (n ∷ [])) (negate_x k);
  neg_residue = one_square;
}

-- A key's secret and public bytes.
abbrev pub secret : Bytes
secret = replicate 31 0 ++ (1 ∷ [])

abbrev pub public : Bytes
public = 2 ∷ (replicate 31 0 ++ (1 ∷ []))
