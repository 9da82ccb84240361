-- ===== src/Tx/Build/Sort.antt =====
-- Rust's `sort_by_key` and `sort_unstable`, as insertion sort, with what every sort promises.
use ticker_cash.Prelude.{
  ℕ, ◌≤◌, ◌<◌, ◌≡◌, refl, Bool, true, List, [], ◌∷◌, length, leb, ◌==◌, if◌then◌else◌, All, count,
  arith, Bool-cases, inl, inr, sym, ◌∙◌, count-true, All-imp, leb→le,
}

module _ {A : Type 0} (key : A → ℕ) where
  unfoldable pub insert_by_key : A → List A → List A
  insert_by_key a [] = a ∷ []
  insert_by_key a (b ∷ rest) =
      let inserted = insert_by_key a rest in
      if leb (key a) (key b) then a ∷ b ∷ rest else b ∷ inserted

  -- `sort_by_key`, stable, and `sort_unstable` where the elements are their own keys.
  unfoldable pub sort_by_key : List A → List A
  sort_by_key [] = []
  sort_by_key (a ∷ rest) = insert_by_key a (sort_by_key rest)

module _ {A : Type 0} (key : A → ℕ) where
  -- Keys do not decrease.
  abbrev pub Ordered : List A → Type 0
  Ordered [] = Unit
  Ordered (a ∷ rest) = All (λ b. key a ≤ key b) rest × Ordered rest

  -- Keys increase.
  abbrev pub Ascending : List A → Type 0
  Ascending [] = Unit
  Ascending (a ∷ rest) = All (λ b. key a < key b) rest × Ascending rest

  -- No key occurs twice.
  abbrev pub Distinct : List A → Type 0
  Distinct xs = (k : ℕ) → count (λ a. key a == k) xs ≤ 1

  All-insert_by_key :
      (P : A → Type 0) (a : A) (xs : List A) → P a → All P xs → All P (insert_by_key key a xs)
  unfolding insert_by_key
  All-insert_by_key P a [] h hs = (h, tt)
  All-insert_by_key P a (b ∷ rest) h (hb, hs) = elim (Bool-cases (leb (key a) (key b))) [
    | inl le ↦ rw le (h, (hb, hs))
    | inr gt ↦ rw gt (hb, All-insert_by_key P a rest h hs)
  ]

  pub All-sort_by_key : (P : A → Type 0) (xs : List A) → All P xs → All P (sort_by_key key xs)
  unfolding sort_by_key
  All-sort_by_key P [] h = tt
  All-sort_by_key P (a ∷ rest) (h, hs) =
      All-insert_by_key P a (sort_by_key key rest) h (All-sort_by_key P rest hs)

  count-insert_by_key :
      (p : A → Bool) (a : A) (xs : List A) → count p (insert_by_key key a xs) ≡ count p (a ∷ xs)
  unfolding insert_by_key
  count-insert_by_key p a [] = refl
  count-insert_by_key p a (b ∷ rest) = elim (Bool-cases (leb (key a) (key b))) [
    | inl le ↦ rw le refl
    | inr gt ↦ rw gt (omega (arith, count-insert_by_key p a rest))
  ]

  pub count-sort_by_key : (p : A → Bool) (xs : List A) → count p (sort_by_key key xs) ≡ count p xs
  unfolding sort_by_key
  count-sort_by_key p [] = refl
  count-sort_by_key p (a ∷ rest) =
      omega (arith, count-insert_by_key p a (sort_by_key key rest), count-sort_by_key p rest)

  pub length-sort_by_key : (xs : List A) → length (sort_by_key key xs) ≡ length xs
  length-sort_by_key xs =
      sym (count-true (sort_by_key key xs)) ∙ count-sort_by_key (λ a. true) xs ∙ count-true xs

  Ordered-insert_by_key : (a : A) (xs : List A) → Ordered xs → Ordered (insert_by_key key a xs)
  unfolding insert_by_key
  Ordered-insert_by_key a [] h = (tt, tt)
  Ordered-insert_by_key a (b ∷ rest) (hb, hs) = elim (Bool-cases (leb (key a) (key b))) [
    | inl le ↦
        let a_b = leb→le (key a) (key b) le in
        rw le (
          (a_b, All-imp (λ c. key b ≤ key c) (λ c. key a ≤ key c) (λ c b_c. omega arith) rest hb),
          (hb, hs),
        )
    | inr gt ↦ rw gt (
      All-insert_by_key (λ c. key b ≤ key c) a rest (ground arith) hb,
      Ordered-insert_by_key a rest hs,
    )
  ]

  pub Ordered-sort_by_key : (xs : List A) → Ordered (sort_by_key key xs)
  unfolding sort_by_key
  Ordered-sort_by_key [] = tt
  Ordered-sort_by_key (a ∷ rest) =
      Ordered-insert_by_key a (sort_by_key key rest) (Ordered-sort_by_key rest)

  above :
      (k : ℕ) (xs : List A)
      → All (λ b. k ≤ key b) xs
      → count (λ b. key b == k) xs ≡ 0
      → All (λ b. k < key b) xs
  above k [] h none_equal = tt
  above k (b ∷ rest) (hb, hs) none_equal = (ground arith, above k rest hs (omega arith))

  -- Where no key occurs twice, keys in order increase.
  pub Ordered-Ascending : (xs : List A) → Ordered xs → Distinct xs → Ascending xs
  Ordered-Ascending [] h d = tt
  Ordered-Ascending (a ∷ rest) (ha, hs) d = (
    above (key a) rest ha (ground (arith, d (key a))),
    Ordered-Ascending rest hs (λ k. omega (arith, d k)),
  )
