-- ===== src/Httpx/Chunks.antt =====
-- node/core/src/httpx.rs: the rounds of `dechunk` end, and what stops them.
use mathlib.Core.List.{append_assoc}
use ticker_cash.Prelude.{
  ℕ, zero, suc, ◌+◌, ◌%◌, ◌≤◌, ◌<◌, ◌≡◌, refl, sym, subst, ap, ◌∙◌, Option, none, some, [], ◌∷◌,
  ◌++◌, take, drop, length, ◌==◌, ltb, Result, ok, err, ok_or, arith, Bool-cases, inl, inr,
  length-drop, ◌⊎◌,
}
use ticker_cash.Bytes.{Bytes, u64_mod}
use ticker_cash.Text.{Text, keep_before, codes}
use ticker_cash.Text.Split.{split_at, starts_with}
use ticker_cash.Httpx.{
  Ran, out_of_fuel, panicked, returned, HttpError, Response, crlf, take_chunk, sized, lined,
  chunk_size, dechunk_rounds, dechunk, split_head, body_of, status_in, with_status, parse_body,
  parse_split, parse_response, no_header_end, names_chunked, header_value,
}

-- One text is a part of another.
abbrev pub IsPart : Bytes → Bytes → Type 0
IsPart line raw = (before : Bytes) × (behind : Bytes) × (raw ≡ before ++ (line ++ behind))

-- Some part of the text is a size line with a size that overflows when two is added.
abbrev pub HasHuge : Bytes → Type 0
HasHuge raw =
    (line : Bytes) × (size : ℕ) × IsPart line raw
    × (chunk_size line ≡ some size)
    × (u64_mod ≤ size + 2)

-- What a parser may come to on a text.
abbrev IsSafe : {A : Type 0} → Bytes → Ran A → Type 0
IsSafe raw out_of_fuel = ⊥
IsSafe raw panicked = HasHuge raw
IsSafe raw (returned r) = Unit

HasHuge-behind : (front raw : Bytes) → HasHuge raw → HasHuge (front ++ raw)
HasHuge-behind front raw (line, size, (before, behind, e), sized, huge) = (
  line,
  size,
  (front ++ before, behind, ap (◌++◌ front) e ∙ sym (append_assoc front before (line ++ behind))),
  sized,
  huge,
)

IsSafe-behind :
    {A : Type 0} (front raw whole : Bytes) (o : Ran A)
    → whole ≡ front ++ raw
    → IsSafe raw o
    → IsSafe whole o
IsSafe-behind front raw whole out_of_fuel e h = h
IsSafe-behind front raw whole panicked e h = subst HasHuge (sym e) (HasHuge-behind front raw h)
IsSafe-behind front raw whole (returned r) e h = tt

take-drop : (n : ℕ) (s : Bytes) → s ≡ take n s ++ drop n s
take-drop zero s = refl
take-drop (suc n) [] = refl
take-drop (suc n) (c ∷ s) = ap (◌∷◌ c) (take-drop n s)

-- The two sides of a pattern are parts of the text, and the second is shorter than it.
abbrev IsCut : Text → Option (Text × Text) → Type 0
IsCut s none = Unit
IsCut s (some (before, behind)) =
    (length behind < length s) × ((pattern : Text) × (s ≡ before ++ (pattern ++ behind)))

keep_before-IsCut :
    (c : ℕ) (s : Text) (o : Option (Text × Text)) → IsCut s o → IsCut (c ∷ s) (keep_before c o)
keep_before-IsCut c s none h = tt
keep_before-IsCut c s (some (before, behind)) (short, (pattern, e)) =
    (omega arith, (pattern, ap (◌∷◌ c) e))

split_at-IsCut : (d : ℕ) (p s : Text) → IsCut s (split_at (d ∷ p) s)
unfolding split_at
split_at-IsCut d p [] = tt
split_at-IsCut d p (c ∷ s) = elim (Bool-cases (starts_with (d ∷ p) (c ∷ s))) [
  | inl here ↦ rw here (
      let l = length-drop (length p) s in
      (omega arith, (c ∷ take (length p) s, ap (◌∷◌ c) (take-drop (length p) s))))
  | inr later ↦ rw later (keep_before-IsCut c s (split_at (d ∷ p) s) (split_at-IsCut d p s))
]

module _ (again : Bytes → Bytes → Ran Bytes) (whole : Bytes) where
  -- The next rounds are safe on whatever is shorter.
  abbrev NextIsSafe : Type 0
  NextIsSafe = (r o : Bytes) → length r < length whole → IsSafe r (again r o)

  take_chunk-IsSafe :
      (line rest out pattern : Bytes) (size : ℕ)
      → NextIsSafe
      → chunk_size line ≡ some size
      → length rest < length whole
      → whole ≡ line ++ (pattern ++ rest)
      → IsSafe whole (take_chunk again size rest out)
  take_chunk-IsSafe line rest out pattern size next e short cut = elim (Bool-cases (size == 0)) [
    | inl last ↦ rw last tt
    | inr positive ↦ rw positive (elim (Bool-cases (ltb (length rest) ((size + 2) % u64_mod))) [
      | inl cut_off ↦ rw cut_off tt
      | inr enough ↦ rw enough (elim (Bool-cases (ltb (length rest) size)) [
        | inl outside ↦ rw outside (line, size, ([], pattern ++ rest, cut), e, ground arith)
        | inr inside ↦
            let behind = drop (size + 2) rest in
            let split : whole ≡ (line ++ (pattern ++ take (size + 2) rest)) ++ behind =
              cut
              ∙ ap (λ r. line ++ (pattern ++ r)) (take-drop (size + 2) rest)
              ∙ ap (◌++◌ line) (sym (append_assoc pattern (take (size + 2) rest) behind))
              ∙ sym (append_assoc line (pattern ++ take (size + 2) rest) behind) in
            rw inside (
              IsSafe-behind (line ++ (pattern ++ take (size + 2) rest)) behind whole _ split
                (next behind (out ++ take size rest) (omega (arith, length-drop (size + 2) rest))))
      ])
    ])
  ]

  sized-IsSafe :
      (line rest out pattern : Bytes) (o : Option ℕ)
      → NextIsSafe
      → chunk_size line ≡ o
      → length rest < length whole
      → whole ≡ line ++ (pattern ++ rest)
      → IsSafe whole (sized again o rest out)
  sized-IsSafe line rest out pattern none next e short cut = tt
  sized-IsSafe line rest out pattern (some size) next e short cut =
      take_chunk-IsSafe line rest out pattern size next e short cut

  lined-IsSafe :
      (o : Option (Bytes × Bytes)) (out : Bytes)
      → NextIsSafe
      → IsCut whole o
      → IsSafe whole (lined again o out)
  lined-IsSafe none out next cut = tt
  lined-IsSafe (some (line, rest)) out next (short, (pattern, cut)) =
      sized-IsSafe line rest out pattern (chunk_size line) next refl short cut

dechunk_rounds-IsSafe :
    (fuel : ℕ) (rest out : Bytes) → length rest < fuel → IsSafe rest (dechunk_rounds fuel rest out)
unfolding dechunk_rounds crlf
dechunk_rounds-IsSafe zero rest out h = absurd (omega arith)
dechunk_rounds-IsSafe (suc fuel) rest out h =
    lined-IsSafe (λ r o. dechunk_rounds fuel r o) rest (split_at crlf rest) out
      (λ r o lt. dechunk_rounds-IsSafe fuel r o (omega arith))
      (split_at-IsCut 0x0d (0x0a ∷ []) rest)

body_of-IsSafe : (head rest : Bytes) → IsSafe rest (body_of head rest)
unfolding body_of dechunk
body_of-IsSafe head rest =
    elim (Bool-cases (names_chunked (header_value head (codes "transfer-encoding")))) [
      | inl named ↦ rw named (dechunk_rounds-IsSafe (suc (length rest)) rest [] (omega arith))
      | inr plain ↦ rw plain tt
    ]

with_status-IsSafe :
    (raw : Bytes) (status : ℕ) (o : Ran Bytes) → IsSafe raw o → IsSafe raw (with_status status o)
with_status-IsSafe raw status out_of_fuel h = h
with_status-IsSafe raw status panicked h = h
with_status-IsSafe raw status (returned (err e)) h = tt
with_status-IsSafe raw status (returned (ok body)) h = tt

parse_body-IsSafe :
    (raw : Bytes) (o : Result HttpError ℕ) (head rest : Bytes)
    → IsSafe raw (body_of head rest)
    → IsSafe raw (parse_body o head rest)
parse_body-IsSafe raw (err e) head rest h = tt
parse_body-IsSafe raw (ok status) head rest h = with_status-IsSafe raw status (body_of head rest) h

parse_split-IsSafe :
    (raw : Bytes) (o : Option (Bytes × Bytes)) (e : HttpError)
    → IsCut raw o
    → IsSafe raw (parse_split (ok_or o e))
parse_split-IsSafe raw none e cut = tt
parse_split-IsSafe raw (some (head, rest)) e (short, (pattern, cut)) =
    parse_body-IsSafe raw (status_in head) head rest (
      IsSafe-behind (head ++ pattern) rest raw (body_of head rest)
        (cut ∙ sym (append_assoc head pattern rest)) (body_of-IsSafe head rest))

parse_response-IsSafe : (raw : Bytes) → IsSafe raw (parse_response raw)
unfolding parse_response split_head crlf
parse_response-IsSafe raw =
    parse_split-IsSafe raw (split_at (0x0d ∷ 0x0a ∷ 0x0d ∷ 0x0a ∷ []) raw) no_header_end
      (split_at-IsCut 0x0d (0x0a ∷ 0x0d ∷ 0x0a ∷ []) raw)

returns_or_panics :
    (raw : Bytes) (o : Ran Response)
    → IsSafe raw o
    → ((r : Result HttpError Response) × (o ≡ returned r)) ⊎ (HasHuge raw × (o ≡ panicked))
returns_or_panics raw out_of_fuel h = absurd h
returns_or_panics raw panicked h = inr (h, refl)
returns_or_panics raw (returned r) h = inl (r, refl)

-- `parse_response` ends on every input, and it returns a response or an error, unless some part of the input
-- read as the size line of a chunk gives a number that overflows 64 bits when two is added: there it may
-- panic, but for nothing else.
pub parse_response_ends :
    (raw : Bytes)
    → ((r : Result HttpError Response) × (parse_response raw ≡ returned r))
      ⊎ (HasHuge raw × (parse_response raw ≡ panicked))
parse_response_ends raw = returns_or_panics raw (parse_response raw) (parse_response-IsSafe raw)
