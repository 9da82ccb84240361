-- ===== src/Tx/Script/Number.antt =====
-- Script numbers: `push_int` pushes the bytes that the script rules read as the number.
use native.Mathlib.Nat.{pow-suc}
use ticker_cash.Prelude.{
  ℕ, zero, suc, ◌+◌, ◌*◌, ◌/◌, ◌%◌, ◌^◌, ◌≤◌, ◌<◌, ◌≡◌, ◌≢◌, refl, Bool, true, false, some, [], ◌∷◌,
  ◌++◌, arith, length, leb, ◌==◌, ap,
}
use ticker_cash.Bytes.{Bytes}
use ticker_cash.Bytes.Bits.{top_bit, set_top_bit}
use ticker_cash.Tx.Script.{I64, abs_bytes, put_sign, push_data, push_int}
use ticker_cash.Tx.Script.Push.{read_push, read_push-push_data}

-- The number that the script rules see in a string: little-endian, the top bit of the last byte is
-- the sign.
unfoldable pub script_number : Bytes → Bool × ℕ
script_number [] = (false, 0)
script_number (b ∷ []) = (leb 128 b, b % 128)
script_number (b ∷ c ∷ rest) =
    let (negative, m) = script_number (c ∷ rest) in (negative, b + 256 * m)

put_sign-cons :
    (negative : Bool) (b : ℕ) (bs : Bytes)
    → bs ≢ []
    → put_sign negative (b ∷ bs) ≡ b ∷ put_sign negative bs
unfolding put_sign
put_sign-cons negative b [] h = absurd (h refl)
put_sign-cons negative b (c ∷ bs) h = refl

put_sign-ne-nil : (negative : Bool) (bs : Bytes) → bs ≢ [] → put_sign negative bs ≢ []
unfolding put_sign
put_sign-ne-nil negative [] h = h
put_sign-ne-nil negative (b ∷ []) h = λ e. ground arith
put_sign-ne-nil negative (b ∷ c ∷ bs) h = λ e. cc

script_number-cons :
    (b : ℕ) (bs : Bytes)
    → bs ≢ []
    → script_number (b ∷ bs) ≡ ((script_number bs).0, b + 256 * (script_number bs).1)
unfolding script_number
script_number-cons b [] h = absurd (h refl)
script_number-cons b (c ∷ bs) h = refl

-- One byte takes the sign in its top bit, or a second byte takes it.
script_number_last :
    (negative : Bool) (b : ℕ) → b < 256 → script_number (put_sign negative (b ∷ [])) ≡ (negative, b)
unfolding script_number put_sign
script_number_last true b h = ground (arith, top_bit b, set_top_bit b)
script_number_last false b h = ground (arith, top_bit b)

abs_bytes-zero : (f : ℕ) → abs_bytes f 0 ≡ []
unfolding abs_bytes
abs_bytes-zero zero = refl
abs_bytes-zero (suc f) = refl

abs_bytes-suc : (f n : ℕ) → abs_bytes (suc f) (suc n) ≡ suc n % 256 ∷ abs_bytes f (suc n / 256)
unfolding abs_bytes
abs_bytes-suc f n = refl

abs_bytes-ne-nil : (f q : ℕ) → 0 < f → abs_bytes f (suc q) ≢ []
unfolding abs_bytes
abs_bytes-ne-nil zero q h = absurd (omega arith)
abs_bytes-ne-nil (suc f) q h = λ e. cc

-- The magnitude's last byte, and a byte before it.
script_number_small :
    (negative : Bool) (f n : ℕ)
    → suc n < 256
    → script_number (put_sign negative (abs_bytes (suc f) (suc n))) ≡ (negative, suc n)
script_number_small negative f n h =
    let high : suc n / 256 ≡ 0 = omega arith in
    let low : suc n % 256 ≡ suc n = omega arith in
    rw (abs_bytes-suc f n, high, abs_bytes-zero f, low) (script_number_last negative (suc n) h)

script_number_large :
    (negative : Bool) (f n q : ℕ)
    → 0 < f
    → suc n / 256 ≡ suc q
    → script_number (put_sign negative (abs_bytes f (suc q))) ≡ (negative, suc q)
    → script_number (put_sign negative (abs_bytes (suc f) (suc n))) ≡ (negative, suc n)
script_number_large negative f n q hf e ih =
    let rest = abs_bytes f (suc q) in
    let some_rest = abs_bytes-ne-nil f q hf in
    rw
      (
        abs_bytes-suc f n,
        e,
        put_sign-cons negative (suc n % 256) rest some_rest,
        script_number-cons (suc n % 256) _ (put_sign-ne-nil negative rest some_rest),
        ih,
      )
      (ap (λ m. (negative, m)) (omega arith))

script_number_abs :
    (negative : Bool) (f n : ℕ)
    → suc n < 256 ^ f
    → script_number (put_sign negative (abs_bytes f (suc n))) ≡ (negative, suc n)
script_number_abs negative zero n h = absurd (omega arith)
script_number_abs negative (suc zero) n h = script_number_small negative 0 n (omega arith)
script_number_abs negative (suc (suc f)) n h =
    go (script_number_abs negative (suc f)) (suc n / 256) refl
  where
    go :
        ((q : ℕ)
          → suc q < 256 ^ suc f
          → script_number (put_sign negative (abs_bytes (suc f) (suc q))) ≡ (negative, suc q))
        → (q : ℕ) → suc n / 256 ≡ q
        → script_number (put_sign negative (abs_bytes (suc (suc f)) (suc n))) ≡ (negative, suc n)
    go ih zero e = script_number_small negative (suc f) n (omega arith)
    go ih (suc q) e =
        script_number_large negative (suc f) n q (omega arith) e
          (ih q (omega (arith, pow-suc 256 (suc f))))

-- An i64 has a magnitude of at most 2 ^ 63, and zero has no sign.
pub record IsI64 (n : I64) : Type 0 where
  pub in_range : n.unsigned_abs ≤ 2 ^ 63
  pub zero_sign : n.unsigned_abs ≡ 0 → n.negative ≡ false

length-put_sign : (negative : Bool) (bs : Bytes) → length (put_sign negative bs) ≤ length bs + 1
unfolding put_sign
length-put_sign negative [] = omega arith
length-put_sign negative (b ∷ []) = ground arith
length-put_sign negative (b ∷ c ∷ bs) = omega (arith, length-put_sign negative (c ∷ bs))

length-abs_bytes : (f n : ℕ) → length (abs_bytes f n) ≤ f
unfolding abs_bytes
length-abs_bytes zero n = omega arith
length-abs_bytes (suc f) zero = omega arith
length-abs_bytes (suc f) (suc n) = omega (arith, length-abs_bytes f (suc n / 256))

push_int_nonzero :
    (negative : Bool) (n : ℕ)
    → push_int (record { negative = negative; unsigned_abs = suc n })
      ≡ push_data (put_sign negative (abs_bytes 8 (suc n)))
unfolding push_int
push_int_nonzero negative n = let e : (suc n == 0) ≡ false = ground arith in rw e

push_int_zero :
    (negative : Bool) → push_int (record { negative = negative; unsigned_abs = 0 }) ≡ push_data []
unfolding push_int push_data
push_int_zero negative = refl

push_int_parts :
    (negative : Bool) (abs : ℕ) (rest : Bytes)
    → IsI64 (record { negative = negative; unsigned_abs = abs })
    → (bs : Bytes) × (read_push
          (push_int (record { negative = negative; unsigned_abs = abs }) ++ rest)
        ≡ some (bs, rest))
      × (script_number bs ≡ (negative, abs))
      × (length bs ≤ 9)
push_int_parts negative zero rest h = (
  [],
  rw (push_int_zero negative) (read_push-push_data [] rest (omega arith)),
  rw (h.zero_sign refl) (unfold script_number in refl),
  omega arith,
)
push_int_parts negative (suc n) rest h =
    let bs = put_sign negative (abs_bytes 8 (suc n)) in
    let short : length bs ≤ 9 =
      omega (arith, length-put_sign negative (abs_bytes 8 (suc n)), length-abs_bytes 8 (suc n)) in
    (
      bs,
      rw (push_int_nonzero negative n) (read_push-push_data bs rest (omega arith)),
      script_number_abs negative 8 n (omega (arith, h.in_range)),
      short,
    )

-- What `push_int` pushes for an i64 is read back by the script rules as a string of at most nine
-- bytes that is the script number of that i64, and what follows the push is left.
pub read-push_int :
    (n : I64) (rest : Bytes)
    → IsI64 n
    → (bs : Bytes) × (read_push (push_int n ++ rest) ≡ some (bs, rest))
      × (script_number bs ≡ (n.negative, n.unsigned_abs))
      × (length bs ≤ 9)
read-push_int n rest h = push_int_parts n.negative n.unsigned_abs rest h
