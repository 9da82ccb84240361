-- ===== src/Text/Split.antt =====
-- Lines, headers and numbers in a text: the methods of Rust's standard library behind `split_once`.
use ticker_cash.Prelude.{
  ℕ, ◌+◌, ◌-◌, ◌*◌, Bool, true, false, ◌&&◌, ◌||◌, Option, none, some, List, [], ◌∷◌, drop, take,
  length, ◌==◌, leb, ltb, if◌then◌else◌,
}
use ticker_cash.Bytes.{bytes_eq}
use ticker_cash.Text.{Text, split_once, keep_before}

unfoldable pub starts_with : Text → Text → Bool
starts_with pattern s = bytes_eq (take (length pattern) s) pattern

-- What is before and behind the first place of a pattern: `windows(n).position(..)` and its two slices.
unfoldable pub split_at : Text → Text → Option (Text × Text)
split_at pattern [] = none
split_at pattern (c ∷ s) =
    let later = keep_before c (split_at pattern s) in
    if starts_with pattern (c ∷ s) then some ([], drop (length pattern) (c ∷ s)) else later

-- `str::contains` of a pattern that is not empty.
unfoldable pub contains : Text → Text → Bool
contains pattern [] = false
contains pattern (c ∷ s) = starts_with pattern (c ∷ s) || contains pattern s

abbrev pub first_part : Text → Option (Text × Text) → Text
first_part s none = s
first_part s (some (first, rest)) = first

-- `split(k).next()`
unfoldable pub before : ℕ → Text → Text
before k s = first_part s (split_once k s)

-- `split(k).nth(1)`
unfoldable pub second : ℕ → Text → Option Text
second k s = elim (split_once k s) [ none ↦ none | some (first, rest) ↦ some (before k rest) ]

unfoldable pub strip_cr : Text → Text
strip_cr [] = []
strip_cr (c ∷ []) = if c == 0x0d then [] else c ∷ []
strip_cr (c ∷ d ∷ s) = c ∷ strip_cr (d ∷ s)

-- `lines().next()`
unfoldable pub first_line : Text → Option Text
first_line [] = none
first_line (c ∷ s) = elim (split_once 0x0a (c ∷ s)) [
  | none ↦ some (c ∷ s)
  | some (line, rest) ↦ some (strip_cr line)
]

abbrev push : ℕ → List Text → List Text
push c [] = (c ∷ []) ∷ []
push c (line ∷ lines) = (c ∷ line) ∷ lines

-- `split("\r\n")`, behind a carriage return or not.
unfoldable pub split_crlf : (held : Bool) → Text → List Text
split_crlf false [] = [] ∷ []
split_crlf true [] = (0x0d ∷ []) ∷ []
split_crlf false (c ∷ s) =
    let rest = split_crlf (c == 0x0d) s in if c == 0x0d then rest else push c rest
split_crlf true (c ∷ s) =
    let rest = split_crlf (c == 0x0d) s in
    if c == 0x0a then [] ∷ rest else push 0x0d (if c == 0x0d then rest else push c rest)

-- `char::to_digit`, for a radix of 10 or 16.
unfoldable pub to_digit : (radix c : ℕ) → Option ℕ
to_digit radix c =
    let value =
      if leb b'0' c && leb c b'9'
      then c - b'0'
      else if leb b'a' c && leb c b'z'
      then c - b'a' + 10
      else if leb b'A' c && leb c b'Z'
      then c - b'A' + 10
      else 36 in
    if ltb value radix then some value else none

-- A digit behind `n`, as long as the number is below the bound.
abbrev pub accumulate : (radix bound n : ℕ) → (ℕ → Option ℕ) → Option ℕ → Option ℕ
accumulate radix bound n again none = none
accumulate radix bound n again (some d) =
    let rest = again (n * radix + d) in if ltb (n * radix + d) bound then rest else none

unfoldable pub digits_from : (radix bound n : ℕ) → Text → Option ℕ
digits_from radix bound n [] = some n
digits_from radix bound n (c ∷ s) =
    accumulate radix bound n (λ m. digits_from radix bound m s) (to_digit radix c)

-- `from_str_radix` and `parse` of an unsigned type of the numbers below the bound; a plus is allowed.
unfoldable pub from_str_radix : (radix bound : ℕ) → Text → Option ℕ
from_str_radix radix bound [] = none
from_str_radix radix bound (c ∷ []) = digits_from radix bound 0 (c ∷ [])
from_str_radix radix bound (c ∷ d ∷ s) =
    if c == b'+' then digits_from radix bound 0 (d ∷ s) else digits_from radix bound 0 (c ∷ d ∷ s)
