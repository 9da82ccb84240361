-- ===== src/Text.antt =====
-- The operations on text of Rust's standard library that the program calls. A text is the list of
-- its code points.
pub mod Decimal
pub mod Laws
pub mod Utf8
pub mod Split
pub mod Hex
use Prim.Native.Char.{Char, code}
use Prim.Native.String
use Prim.Native.String.{String}
use ticker_cash.Prelude.{
  ℕ, zero, suc, ◌+◌, Bool, true, false, ◌&&◌, ◌||◌, Option, none, some, List, [], ◌∷◌, reverse,
  ◌==◌, leb, if◌then◌else◌, map,
}
use ticker_cash.Bytes.{bytes_eq}

abbrev pub Text : Type 0
Text = List ℕ

-- The code points of a literal.
abbrev pub codes : String → Text
codes String.[] = []
codes (String.◌∷◌ c s) = code c ∷ codes s

-- `char::to_ascii_lowercase`
unfoldable pub to_ascii_lowercase : ℕ → ℕ
to_ascii_lowercase c = if leb b'A' c && leb c b'Z' then c + 32 else c

-- `str::eq_ignore_ascii_case`
unfoldable pub eq_ignore_ascii_case : Text → Text → Bool
unfolding to_ascii_lowercase bytes_eq
eq_ignore_ascii_case s t = bytes_eq (map to_ascii_lowercase s) (map to_ascii_lowercase t)

abbrev pub is_ascii_digit : ℕ → Bool
is_ascii_digit c = leb b'0' c && leb c b'9'

-- `char::is_whitespace`: the code points with the property White_Space.
unfoldable pub is_whitespace : ℕ → Bool
is_whitespace c =
    (leb 9 c && leb c 13)
    || (c == 0x20
        || (c == 0x85
            || (c == 0xa0
                || (c == 0x1680
                    || ((leb 0x2000 c && leb c 0x200a)
                        || (c == 0x2028
                            || (c == 0x2029 || (c == 0x202f || (c == 0x205f || c == 0x3000)))))))))

unfoldable pub trim_start : Text → Text
trim_start [] = []
trim_start (c ∷ s) = if is_whitespace c then trim_start s else c ∷ s

-- `str::trim`
unfoldable pub trim : Text → Text
unfolding trim_start
trim s = reverse (trim_start (reverse (trim_start s)))

-- `str::trim_end`
unfoldable pub trim_end : Text → Text
trim_end s = reverse (trim_start (reverse s))

-- `str::trim_start_matches` at one character.
unfoldable pub trim_start_matches : ℕ → Text → Text
trim_start_matches k [] = []
trim_start_matches k (c ∷ s) = if c == k then trim_start_matches k s else c ∷ s

abbrev pub keep_before : ℕ → Option (Text × Text) → Option (Text × Text)
keep_before c none = none
keep_before c (some (before, after)) = some (c ∷ before, after)

-- `str::split_once` at one character.
unfoldable pub split_once : ℕ → Text → Option (Text × Text)
split_once k [] = none
split_once k (c ∷ s) = if c == k then some ([], s) else keep_before c (split_once k s)
