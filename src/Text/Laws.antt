-- ===== src/Text/Laws.antt =====
-- What splitting and trimming return.
use mathlib.Core.List.{reverse-append, reverse-reverse, reverse-cons}
use ticker_cash.Prelude.{
  ℕ, ◌≡◌, ◌≢◌, refl, sym, ap, ◌∙◌, false, Option, none, some, [], ◌∷◌, ◌++◌, reverse, inl, inr,
  arith, All, All-append, ==_iff, ◌==◌, Bool-cases,
}
use ticker_cash.Text.{
  Text, is_whitespace, trim_start, trim, trim_start_matches, split_once, keep_before,
}
use ticker_cash.Text.Decimal.{IsDigit, decimal_from}

-- No character of the text is `k`.
abbrev pub Lacks : ℕ → Text → Type 0
Lacks k = All (λ c. c ≢ k)

-- What `split_once` promises of each answer.
abbrev pub IsSplit : ℕ → Text → Option (Text × Text) → Type 0
IsSplit k s none = Lacks k s
IsSplit k s (some (i, f)) = (s ≡ i ++ (k ∷ f)) × Lacks k i

keep_before-IsSplit :
    (k c : ℕ) (s : Text) (o : Option (Text × Text))
    → c ≢ k
    → IsSplit k s o
    → IsSplit k (c ∷ s) (keep_before c o)
keep_before-IsSplit k c s none h lacks = (h, lacks)
keep_before-IsSplit k c s (some (i, f)) h (e, lacks) = (ap (◌∷◌ c) e, (h, lacks))

pub split_once-IsSplit : (k : ℕ) (s : Text) → IsSplit k s (split_once k s)
unfolding split_once
split_once-IsSplit k [] = tt
split_once-IsSplit k (c ∷ s) = elim (Bool-cases (c == k)) [
  | inl same ↦ rw same (rw ((==_iff c k).0 same) (refl, tt))
  | inr other ↦
      rw other
        (keep_before-IsSplit k c s (split_once k s) (λ e. ground arith) (split_once-IsSplit k s))
]

pub split_once-append : (k : ℕ) (i f : Text) → Lacks k i → split_once k (i ++ (k ∷ f)) ≡ some (i, f)
unfolding split_once
split_once-append k [] f h = ground arith
split_once-append k (c ∷ i) f (hc, hi) = ground (arith, split_once-append k i f hi)

pub split_once-Lacks : (k : ℕ) (s : Text) → Lacks k s → split_once k s ≡ none
unfolding split_once
split_once-Lacks k [] h = refl
split_once-Lacks k (c ∷ s) (hc, hs) = ground (arith, split_once-Lacks k s hs)

pub Lacks-of_digits : (s : Text) → All IsDigit s → Lacks b'.' s
Lacks-of_digits [] h = tt
Lacks-of_digits (c ∷ s) (hc, hs) = (omega arith, Lacks-of_digits s hs)

-- Leading zeros do not count.
pub decimal_from-trim_start_matches :
    (s : Text) → decimal_from 0 (trim_start_matches b'0' s) ≡ decimal_from 0 s
unfolding trim_start_matches decimal_from
decimal_from-trim_start_matches [] = refl
decimal_from-trim_start_matches (c ∷ s) = ground (arith, decimal_from-trim_start_matches s)

trim_start_solid : (c : ℕ) (s : Text) → is_whitespace c ≡ false → trim_start (c ∷ s) ≡ c ∷ s
unfolding trim_start
trim_start_solid c s h = rw h

-- A text whose ends are no white space is trimmed to itself.
pub trim_solid :
    (c : ℕ) (s : Text) (d : ℕ)
    → is_whitespace c ≡ false
    → is_whitespace d ≡ false
    → trim ((c ∷ s) ++ (d ∷ [])) ≡ (c ∷ s) ++ (d ∷ [])
unfolding trim
trim_solid c s d hc hd =
    let front : trim_start (c ∷ (s ++ (d ∷ []))) ≡ c ∷ (s ++ (d ∷ [])) = trim_start_solid c _ hc in
    let back : reverse ((c ∷ s) ++ (d ∷ [])) ≡ d ∷ reverse (c ∷ s) =
      reverse-append (c ∷ s) (d ∷ []) in
    ap (λ t. reverse (trim_start (reverse t))) front
    ∙ ap (λ t. reverse (trim_start t)) back
    ∙ ap reverse (trim_start_solid d _ hd)
    ∙ ap reverse (sym back)
    ∙ reverse-reverse ((c ∷ s) ++ (d ∷ []))

-- No character is white space.
abbrev pub Solid : Text → Type 0
Solid = All (λ c. is_whitespace c ≡ false)

pub Solid-reverse : (s : Text) → Solid s → Solid (reverse s)
Solid-reverse [] h = tt
Solid-reverse (c ∷ s) (hc, h) =
    rw (reverse-cons c s)
      (All-append (λ c. is_whitespace c ≡ false) (reverse s) (c ∷ []) (Solid-reverse s h) (hc, tt))

pub trim_start-Solid : (s : Text) → Solid s → trim_start s ≡ s
unfolding trim_start
trim_start-Solid [] h = refl
trim_start-Solid (c ∷ s) (hc, h) = rw hc refl

pub trim-Solid : (s : Text) → Solid s → trim s ≡ s
unfolding trim
trim-Solid s h =
    rw (trim_start-Solid s h, trim_start-Solid (reverse s) (Solid-reverse s h)) (reverse-reverse s)
