-- ===== src/Examples/Responses.antt =====
-- A response in two chunks, and a chunk whose size overflows.
use ticker_cash.Prelude.{◌≡◌, refl, List, [], ◌∷◌, ◌++◌, Result, ok, arith, ◌⊎◌}
use ticker_cash.Bytes.{Bytes, bytes_eq}
use ticker_cash.Text.{
  codes, split_once, to_ascii_lowercase, eq_ignore_ascii_case, trim, trim_start, is_whitespace,
}
use ticker_cash.Text.Utf8.{from_utf8, read_from, first_byte, next_byte}
use ticker_cash.Text.Split.{
  split_at, starts_with, contains, before, second, first_line, strip_cr, split_crlf, to_digit,
  digits_from, from_str_radix,
}
use ticker_cash.Httpx.{
  HttpError, Response, panicked, returned, crlf, split_head, find_header, header_value, head_line,
  chunk_size, dechunk_rounds, dechunk, body_of, sized_body, status_in, parse_response,
}
use ticker_cash.Httpx.Chunks.{HasHuge, parse_response_ends}
use ticker_cash.Httpx.RoundTrip.{in_chunks, joined, parse_response-in_chunks}

abbrev head : Bytes
head = codes "HTTP/1.1 200 OK" ++ (0x0d ∷ 0x0a ∷ codes "Transfer-Encoding: Chunked")

abbrev chunks : List Bytes
chunks = codes "{\"price\"" ∷ codes ":\"290.0000001\"}" ∷ []

abbrev sent : Bytes
sent = head ++ (0x0d ∷ 0x0a ∷ 0x0d ∷ 0x0a ∷ in_chunks chunks (0x0d ∷ 0x0a ∷ []))

split_sent : split_head sent ≡ ok (head, in_chunks chunks (0x0d ∷ 0x0a ∷ []))
unfolding split_head split_at starts_with crlf bytes_eq
split_sent = refl

parse_response-in_chunks_example :
    parse_response sent ≡ returned (ok (record { status = 200; body = joined chunks }))
unfolding status_in head_line from_utf8 read_from first_byte next_byte first_line split_once second
    strip_cr from_str_radix before digits_from to_digit header_value find_header split_crlf
    eq_ignore_ascii_case bytes_eq to_ascii_lowercase trim trim_start is_whitespace contains
    starts_with
parse_response-in_chunks_example =
    parse_response-in_chunks sent head 200 chunks (0x0d ∷ 0x0a ∷ []) split_sent refl refl
      ((omega arith, omega arith), ((omega arith, omega arith), tt))

parse_response_ends_example :
    ((r : Result HttpError Response) × (parse_response sent ≡ returned r))
    ⊎ (HasHuge sent × (parse_response sent ≡ panicked))
parse_response_ends_example = parse_response_ends sent

-- The largest size of a chunk is not refused.
huge_panics :
    parse_response
      (head ++ (0x0d ∷ 0x0a ∷ 0x0d ∷ 0x0a ∷ codes "ffffffffffffffff" ++ (0x0d ∷ 0x0a ∷ 0x7b ∷ [])))
    ≡ panicked
unfolding parse_response split_head split_at crlf body_of chunk_size dechunk dechunk_rounds
    sized_body status_in head_line from_utf8 read_from first_byte next_byte first_line split_once
    second strip_cr from_str_radix before digits_from to_digit header_value find_header split_crlf
    eq_ignore_ascii_case bytes_eq to_ascii_lowercase trim trim_start is_whitespace contains
    starts_with
huge_panics = refl
