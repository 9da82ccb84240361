-- ===== src/Httpx.antt =====
-- node/core/src/httpx.rs: a response is read to its end and parsed. The connection is what reading it
-- gives, read by read.
pub mod Chunks
pub mod RoundTrip
use mathlib.Core.Option
use ticker_cash.Prelude.{
  ℕ, zero, suc, ◌+◌, ◌%◌, Bool, true, false, Option, none, some, and_then, List, [], ◌∷◌, ◌++◌,
  take, drop, length, map, ◌==◌, ltb, if◌then◌else◌, Result, ok, err, ◌>>=◌, ok_or,
}
use ticker_cash.Bytes.{Bytes, u64_mod}
use ticker_cash.Text.{Text, codes, trim, split_once, to_ascii_lowercase, eq_ignore_ascii_case}
use ticker_cash.Text.Utf8.{from_utf8}
use ticker_cash.Text.Split.{
  split_at, contains, before, second, first_line, split_crlf, from_str_radix,
}

abbrev pub max_response_bytes : ℕ
max_response_bytes = 1_048_576

pub data HttpError : Type 0 where
  no_header_end start_line status_not_numeric bad_chunk truncated : HttpError

-- An error of the standard library or of rustls stands by its text.
pub data FetchError : Type 0 where
  dns tls io : Text → FetchError
  connect : (host error : Text) → FetchError
  too_large : FetchError
  http : HttpError → FetchError

pub record Request : Type 0 where
  pub method : Text
  pub target : Text
  pub host : Option Text

pub record Response : Type 0 where
  pub status : ℕ
  pub body : Bytes

-- What a parser comes to: it returns, or it panics at the end of a slice, or its fuel is used up.
pub data Ran (A : Type 0) : Type 0 where
  out_of_fuel panicked : Ran A
  returned : Result HttpError A → Ran A

unfoldable pub crlf : Bytes
crlf = 0x0d ∷ 0x0a ∷ []

unfoldable pub split_head : Bytes → Result HttpError (Bytes × Bytes)
unfolding crlf
split_head raw = ok_or (split_at (crlf ++ crlf) raw) no_header_end

-- The loop of `header_value` over the lines.
unfoldable pub find_header : Text → List Text → Option Text
find_header name [] = none
find_header name (line ∷ lines) = elim (split_once b':' line) [
  | none ↦ find_header name lines
  | some (k, v) ↦
      let later = find_header name lines in
      if eq_ignore_ascii_case (trim k) name then some (trim v) else later
]

-- `skip(1)`
abbrev pub skip_first : List Text → List Text
skip_first [] = []
skip_first (line ∷ lines) = lines

unfoldable pub header_value : Bytes → Text → Option Text
header_value head name =
    and_then (from_utf8 head) (λ text. find_header name (skip_first (split_crlf false text)))

-- The head as a text, and its first line.
unfoldable pub head_line : Bytes → Result HttpError Text
head_line head = do text ← ok_or (from_utf8 head) start_line; ok_or (first_line text) start_line

unfoldable pub parse_request : Bytes → Result HttpError Request
parse_request raw = do
  (head, body) ← split_head raw
  first ← head_line head
  target ← ok_or (second b' ' first) start_line
  ok (record {
    method = before b' ' first;
    target = target;
    host = Option.map (λ h. map to_ascii_lowercase h) (header_value head (codes "host"));
  })

-- The size in the first line of a chunk.
unfoldable pub chunk_size : Bytes → Option ℕ
chunk_size line =
    and_then (from_utf8 line) (λ text. from_str_radix 16 u64_mod (trim (before b';' text)))

-- A round of the loop of `dechunk` behind its size line; `again` is the next round.
abbrev pub take_chunk : (Bytes → Bytes → Ran Bytes) → ℕ → Bytes → Bytes → Ran Bytes
take_chunk again size rest out =
    if size == 0
    then returned (ok out)
    else if ltb (length rest) ((size + 2) % u64_mod)
    then returned (err bad_chunk)
    else if ltb (length rest) size
    then panicked
    else again (drop (size + 2) rest) (out ++ take size rest)

abbrev pub sized : (Bytes → Bytes → Ran Bytes) → Option ℕ → Bytes → Bytes → Ran Bytes
sized again none rest out = returned (err bad_chunk)
sized again (some size) rest out = take_chunk again size rest out

abbrev pub lined : (Bytes → Bytes → Ran Bytes) → Option (Bytes × Bytes) → Bytes → Ran Bytes
lined again none out = returned (err bad_chunk)
lined again (some (line, rest)) out = sized again (chunk_size line) rest out

unfoldable pub dechunk_rounds : (fuel : ℕ) (rest out : Bytes) → Ran Bytes
dechunk_rounds zero rest out = out_of_fuel
dechunk_rounds (suc fuel) rest out =
    lined (λ rest out. dechunk_rounds fuel rest out) (split_at crlf rest) out

-- A round takes two bytes at least, so there are no more rounds than bytes.
unfoldable pub dechunk : Bytes → Ran Bytes
dechunk rest = dechunk_rounds (suc (length rest)) rest []

-- `map(..).unwrap_or(false)`
abbrev pub names_chunked : Option Text → Bool
names_chunked none = false
names_chunked (some v) = contains (codes "chunked") (map to_ascii_lowercase v)

-- The body by its length, if one is given.
unfoldable pub sized_body : Option ℕ → Bytes → Result HttpError Bytes
sized_body none rest = ok rest
sized_body (some len) rest = if ltb (length rest) len then err truncated else ok (take len rest)

unfoldable pub body_of : (head rest : Bytes) → Ran Bytes
body_of head rest =
    let by_length = returned (
      sized_body (and_then (header_value head (codes "content-length")) (from_str_radix 10 u64_mod))
        rest) in
    if names_chunked (header_value head (codes "transfer-encoding"))
    then dechunk rest
    else by_length

unfoldable pub status_in : Bytes → Result HttpError ℕ
status_in head = do
  first ← head_line head
  code ← ok_or (second b' ' first) start_line
  ok_or (from_str_radix 10 65_536 code) status_not_numeric

abbrev pub with_status : ℕ → Ran Bytes → Ran Response
with_status status out_of_fuel = out_of_fuel
with_status status panicked = panicked
with_status status (returned (err e)) = returned (err e)
with_status status (returned (ok body)) = returned (ok (record { status = status; body = body }))

abbrev pub parse_body : Result HttpError ℕ → (head rest : Bytes) → Ran Response
parse_body (err e) head rest = returned (err e)
parse_body (ok status) head rest = with_status status (body_of head rest)

abbrev pub parse_split : Result HttpError (Bytes × Bytes) → Ran Response
parse_split (err e) = returned (err e)
parse_split (ok (head, rest)) = parse_body (status_in head) head rest

unfoldable pub parse_response : Bytes → Ran Response
parse_response raw = parse_split (split_head raw)

-- What one read of the connection gives: its end, its end without a close_notify, bytes, or an error.
pub data Received : Type 0 where
  ended unexpected_eof : Received
  received : Bytes → Received
  failed : Text → Received

-- The reading loop of `fetch_https`; `none` where the reads given are used up.
unfoldable pub read_response : Bytes → List Received → Option (Result FetchError Bytes)
read_response buf [] = none
read_response buf (ended ∷ reads) = some (ok buf)
read_response buf (unexpected_eof ∷ reads) = some (ok buf)
read_response buf (failed e ∷ reads) = some (err (io e))
read_response buf (received [] ∷ reads) = some (ok buf)
read_response buf (received (b ∷ chunk) ∷ reads) =
    let later = read_response (buf ++ (b ∷ chunk)) reads in
    if ltb max_response_bytes (length (buf ++ (b ∷ chunk))) then some (err too_large) else later

-- The request that `fetch_https` writes.
unfoldable pub request_text : (host path : Text) → Text
unfolding crlf
request_text host path =
    codes "GET "
    ++ path
    ++ codes " HTTP/1.1"
    ++ crlf
    ++ codes "Host: "
    ++ host
    ++ crlf
    ++ codes "User-Agent: ticker-notary/26"
    ++ crlf
    ++ codes "Accept: application/json"
    ++ crlf
    ++ codes "Connection: close"
    ++ crlf
    ++ crlf

abbrev pub parse_read : Result FetchError Bytes → Result FetchError (Ran Response)
parse_read (err e) = err e
parse_read (ok buf) = ok (parse_response buf)

-- `fetch_https`, from what connecting and then reading give.
unfoldable pub fetch_https :
    Result FetchError (List Received) → Option (Result FetchError (Ran Response))
fetch_https (err e) = some (err e)
fetch_https (ok reads) = Option.map parse_read (read_response [] reads)
