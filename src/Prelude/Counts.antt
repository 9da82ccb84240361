-- ===== src/Prelude/Counts.antt =====
-- How many elements of a list pass a test, and lists in order.
use ticker_cash.Prelude.Tests.{if◌then◌else◌}
use ticker_cash.Prelude.Lists.{length, All}
use Prim.Native.Nat.{ℕ, ◌+◌, ◌≤◌}
use mathlib.Core.Path.{◌≡◌}
use mathlib.Core.List.{List, [], ◌∷◌, ◌++◌}
use mathlib.Core.Bool.{Bool, true, false, not}
use native.Mathlib.Omega.{arith}

module _ {A : Type 0} where
  abbrev pub count : (A → Bool) → List A → ℕ
  count test [] = 0
  count test (a ∷ rest) = (if test a then 1 else 0) + count test rest

  pub count_le :
      (p q : A → Bool)
      → ((a : A) → p a ≡ true → q a ≡ true)
      → (xs : List A) → count p xs ≤ count q xs
  count_le p q h [] = omega arith
  count_le p q h (a ∷ rest) = ground (arith, h a, count_le p q h rest)

  pub count-not : (p : A → Bool) (xs : List A) → count p xs + count (λ a. not (p a)) xs ≡ length xs
  count-not p [] = omega arith
  count-not p (a ∷ rest) = ground (arith, count-not p rest)

  -- Each element of the list is one that passes.
  pub count_all : (p : A → Bool) (xs : List A) → All (λ a. p a ≡ true) xs → count p xs ≡ length xs
  count_all p [] h = omega arith
  count_all p (a ∷ rest) (h, hs) = ground (arith, h, count_all p rest hs)

  pub count_none : (p : A → Bool) (xs : List A) → All (λ a. p a ≡ false) xs → count p xs ≡ 0
  count_none p [] h = omega arith
  count_none p (a ∷ rest) (h, hs) = ground (arith, h, count_none p rest hs)

  pub count-true : (xs : List A) → count (λ a. true) xs ≡ length xs
  count-true [] = omega arith
  count-true (a ∷ rest) = omega (arith, count-true rest)

  pub count-length_le : (p : A → Bool) (xs : List A) → count p xs ≤ length xs
  count-length_le p xs = omega (arith, count-not p xs)

  pub count-append : (p : A → Bool) (xs ys : List A) → count p (xs ++ ys) ≡ count p xs + count p ys
  count-append p [] ys = omega arith
  count-append p (a ∷ rest) ys = omega (arith, count-append p rest ys)
