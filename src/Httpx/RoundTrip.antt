-- ===== src/Httpx/RoundTrip.antt =====
-- node/core/src/httpx.rs: a body in chunks, as RFC 9112 has a server send it, is put together again.
use mathlib.Core.List.{append_assoc, append-nil}
use ticker_cash.Prelude.{
  ℕ, zero, suc, ◌+◌, ◌%◌, ◌≤◌, ◌<◌, ◌≡◌, ◌≢◌, refl, sym, ap, subst, ◌∙◌, true, false, some, List,
  [], ◌∷◌, ◌++◌, drop, length, ◌==◌, ltb, ok, arith, length-append, drop-append_eq, take-append,
  All, All-imp,
}
use ticker_cash.Bytes.{Bytes, bytes_eq, u64_mod}
use ticker_cash.Text.{Text, codes, keep_before, is_whitespace}
use ticker_cash.Text.Laws.{Lacks, trim-Solid, split_once-Lacks}
use ticker_cash.Text.Utf8.{from_utf8_ascii}
use ticker_cash.Text.Hex.{
  hex, hex_digit, hex_fuel, IsHexDigit, hex-ne-nil, hex_fuel-IsHexDigit, digits_from-hex_fuel,
}
use ticker_cash.Text.Split.{split_at, starts_with, before, digits_from, from_str_radix}
use ticker_cash.Httpx.{
  Ran, returned, crlf, take_chunk, chunk_size, dechunk_rounds, dechunk, split_head, status_in,
  body_of, names_chunked, header_value, parse_response,
}

-- The chunks of a body: the length in hexadecimal and the bytes, each behind a line end, and at the end a
-- chunk of length zero, behind which a server may send more.
pub in_chunks : List Bytes → (trailer : Bytes) → Bytes
in_chunks [] trailer = b'0' ∷ (crlf ++ trailer)
in_chunks (chunk ∷ rest) trailer =
    hex (length chunk) ++ (crlf ++ (chunk ++ (crlf ++ in_chunks rest trailer)))

-- The body.
pub joined : List Bytes → Bytes
joined [] = []
joined (chunk ∷ rest) = chunk ++ joined rest

-- A chunk that a server can send: not empty, and of a length that the arithmetic of the parser holds.
abbrev pub IsChunk : Bytes → Type 0
IsChunk chunk = (0 < length chunk) × (length chunk + 2 < u64_mod)

split_at-crlf :
    (line rest : Bytes)
    → Lacks 0x0d line
    → split_at crlf (line ++ (crlf ++ rest)) ≡ some (line, rest)
unfolding split_at starts_with crlf bytes_eq
split_at-crlf [] rest h = refl
split_at-crlf (c ∷ line) rest (hc, h) =
    let other : (c == 0x0d) ≡ false = ground arith in
    rw other (ap (keep_before c) (split_at-crlf line rest h))

from_str_radix_plain :
    (radix bound : ℕ) (s : Text)
    → s ≢ []
    → All IsHexDigit s
    → from_str_radix radix bound s ≡ digits_from radix bound 0 s
unfolding from_str_radix
from_str_radix_plain radix bound [] h _ = absurd (h refl)
from_str_radix_plain radix bound (c ∷ []) h _ = refl
from_str_radix_plain radix bound (c ∷ d ∷ s) h (hc, hs) =
    let other : (c == b'+') ≡ false = ground arith in rw other refl

solid : (c : ℕ) → IsHexDigit c → is_whitespace c ≡ false
unfolding is_whitespace
solid c h = ground arith

hex-All : (P : ℕ → Type 0) → ((c : ℕ) → IsHexDigit c → P c) → (n : ℕ) → All P (hex n)
unfolding hex
hex-All P f n = All-imp IsHexDigit P f (hex_fuel 16 n) (hex_fuel-IsHexDigit 16 n)

before-hex : (n : ℕ) → before b';' (hex n) ≡ hex n
unfolding before
before-hex n =
    rw (split_once-Lacks b';' (hex n) (hex-All (λ c. c ≢ b';') (λ c h. ground arith) n)) refl

chunk_size-hex : (n : ℕ) → n < u64_mod → chunk_size (hex n) ≡ some n
unfolding chunk_size
chunk_size-hex n h =
    rw
      (
        from_utf8_ascii (hex n) (hex-All (λ c. c < 0x80) (λ c h. ground arith) n),
        before-hex n,
        trim-Solid (hex n) (hex-All (λ c. is_whitespace c ≡ false) solid n),
        from_str_radix_plain 16 u64_mod (hex n) (hex-ne-nil n) (hex-All IsHexDigit (λ c h. h) n),
      )
      (unfold hex in digits_from-hex_fuel u64_mod 16 n (omega arith) h)

hex-Lacks : (n : ℕ) → Lacks 0x0d (hex n)
hex-Lacks n = hex-All (λ c. c ≢ 0x0d) (λ c h. ground arith) n

take_chunk-chunk :
    (again : Bytes → Bytes → Ran Bytes) (chunk rest out : Bytes)
    → IsChunk chunk
    → take_chunk again (length chunk) (chunk ++ (crlf ++ rest)) out ≡ again rest (out ++ chunk)
unfolding crlf
take_chunk-chunk again chunk rest out (positive, fits) =
    let whole = chunk ++ (crlf ++ rest) in
    let long : length whole ≡ length chunk + (2 + length rest) =
      omega (arith, length-append chunk (crlf ++ rest)) in
    let some_more : (length chunk == 0) ≡ false = ground arith in
    let enough : ltb (length whole) ((length chunk + 2) % u64_mod) ≡ false = ground arith in
    let inside : ltb (length whole) (length chunk) ≡ false = ground arith in
    let behind : drop (length chunk + 2) whole ≡ rest =
      ap (drop (length chunk + 2)) (sym (append_assoc chunk crlf rest))
      ∙ drop-append_eq (length chunk + 2) (chunk ++ crlf) rest
          (omega (arith, length-append chunk crlf)) in
    rw (some_more, enough, inside, behind, take-append chunk (crlf ++ rest)) refl

hex_zero : hex 0 ≡ b'0' ∷ []
unfolding hex hex_fuel hex_digit
hex_zero = refl

module _ (trailer : Bytes) where
  dechunk_rounds-in_chunks :
      (chunks : List Bytes) (fuel : ℕ) (out : Bytes)
      → All IsChunk chunks
      → length chunks < fuel
      → dechunk_rounds fuel (in_chunks chunks trailer) out ≡ returned (ok (out ++ joined chunks))
  unfolding dechunk_rounds in_chunks joined
  dechunk_rounds-in_chunks chunks zero out h enough = absurd (omega arith)
  dechunk_rounds-in_chunks [] (suc fuel) out h enough =
      let last : split_at crlf (b'0' ∷ (crlf ++ trailer)) ≡ some (b'0' ∷ [], trailer) =
        split_at-crlf (b'0' ∷ []) trailer (omega arith, tt) in
      let size : chunk_size (b'0' ∷ []) ≡ some 0 =
        subst (λ s. chunk_size s ≡ some 0) hex_zero (chunk_size-hex 0 (omega arith)) in
      rw (last, size) (ap (λ o. returned (ok o)) (sym (append-nil out)))
  dechunk_rounds-in_chunks (chunk ∷ rest) (suc fuel) out (hc, h) enough =
      let later = crlf ++ in_chunks rest trailer in
      rw
        (
          split_at-crlf (hex (length chunk)) (chunk ++ later) (hex-Lacks (length chunk)),
          chunk_size-hex (length chunk) (omega arith),
          take_chunk-chunk (λ r o. dechunk_rounds fuel r o) chunk (in_chunks rest trailer) out hc,
          dechunk_rounds-in_chunks rest fuel (out ++ chunk) h (omega arith),
          append_assoc out chunk (joined rest),
        )
        refl

  length-in_chunks : (chunks : List Bytes) → length chunks ≤ length (in_chunks chunks trailer)
  unfolding in_chunks crlf
  length-in_chunks [] = omega arith
  length-in_chunks (chunk ∷ rest) =
      let later = in_chunks rest trailer in
      omega (
        arith,
        length-append (hex (length chunk)) (crlf ++ (chunk ++ (crlf ++ later))),
        length-append chunk (crlf ++ later),
        length-in_chunks rest,
      )

-- Where the head of a response has a status and names the chunked encoding, and behind it is a body in
-- chunks as a server writes it, `parse_response` returns the status and the bytes of all the chunks, in their
-- order, whatever is behind the last one.
pub parse_response-in_chunks :
    (raw head : Bytes) (status : ℕ) (chunks : List Bytes) (trailer : Bytes)
    → split_head raw ≡ ok (head, in_chunks chunks trailer)
    → status_in head ≡ ok status
    → names_chunked (header_value head (codes "transfer-encoding")) ≡ true
    → All IsChunk chunks
    → parse_response raw ≡ returned (ok (record { status = status; body = joined chunks }))
unfolding parse_response body_of dechunk
parse_response-in_chunks raw head status chunks trailer cut found named h =
    rw
      (
        cut,
        found,
        named,
        dechunk_rounds-in_chunks trailer chunks (suc (length (in_chunks chunks trailer))) [] h
            (omega (arith, length-in_chunks trailer chunks)),
      )
      refl
