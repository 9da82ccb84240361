-- ===== src/Examples/Pools.antt =====
-- A pool of three endpoints of which the last answers, headers of eleven blocks, and a generated key.
use ticker_cash.Prelude.{
  ℕ, ◌+◌, ◌*◌, ◌-◌, ◌/◌, ◌%◌, ◌<◌, ◌≡◌, refl, ap, true, ◌==◌, ltb, leb, if◌then◌else◌, Option, none,
  some, and_then, List, [], ◌∷◌, ◌++◌, length, replicate, All, Result, ok, err, arith,
}
use ticker_cash.Bytes.{Bytes, IsByte, from_le_bytes, u32_mod}
use ticker_cash.Text.{Text, codes}
use ticker_cash.External.{External}
use ticker_cash.Crypto.Hash.{hash160}
use ticker_cash.Crypto.Schnorr.{derive_pubkey, secret_scalar, nonzero}
use ticker_cash.Keyfile.{
  KeyMaterial, Stored, missing, stored, is_ascii_hexdigit, from_private_key, write_key, draw_key,
  load_key, generate_key_file,
}
use ticker_cash.Keyfile.RoundTrip.{HexLaws, load_key-generate_key_file}
use ticker_cash.Electrum.{dns, io}
use ticker_cash.Electrum.Client.{
  Endpoint, World, Client, is_connection_error, connect_pool, send_recv, call,
}
use ticker_cash.Electrum.Reach.{IsFirst, connect_pool_connects, call_fails_over}
use ticker_cash.Electrum.Headers.{timestamps, median_of_headers, median_of_headers_median}
use ticker_cash.Tx.Build.Sort.{sort_by_key, insert_by_key}
use ticker_cash.Tx.Build.Median.Rank.{IsRank}
use ticker_cash.Examples.Toy.{toy, secret, public}

-- Only the endpoint at port 3 answers; a stream that is 1 is dead.
abbrev world : World
world = record {
  Stream = ℕ;
  Value = ℕ;
  dial = λ attempt ep. (if Endpoint.port ep == 3 then ok 7 else err (dns []));
  exchange = λ conn buf. (if conn == 1 then err (io []) else ok (codes "{}"));
  from_str = λ s. ok (record { error = none; result = some 42 });
  request = λ id method. method;
  display = λ e. [];
}

abbrev at_port : ℕ → Endpoint
at_port n = record { host = []; port = n; tls = true }

abbrev pool : List Endpoint
pool = at_port 1 ∷ at_port 2 ∷ at_port 3 ∷ []

connect_pool_connects_example :
    (c : Client world) × (conn : ℕ) × (connect_pool world 5 pool ≡ ok c)
    × (c.conn ≡ some conn)
    × (c.endpoints ≡ pool)
    × IsFirst world pool (5 % length pool) 0 (length pool) c.current conn
connect_pool_connects_example =
    connect_pool_connects world 5 2 pool (omega arith) (λ attempt. (7, refl))

abbrev client : Client world
client = record { endpoints = pool; current = 0; conn = some 1; next_id = 9 }

call_fails_over_example :
    (idx : ℕ) × (conn : ℕ) × IsFirst world pool 0 1 (length pool) idx conn
    × ((call world client (codes "m")).0 ≡ send_recv world (some conn) (codes "m"))
    × ((call world client (codes "m")).1.conn ≡ some conn)
    × ((call world client (codes "m")).1.current ≡ idx)
unfolding send_recv is_connection_error
call_fails_over_example =
    call_fails_over world client (codes "m") (io []) 2 refl refl (omega arith)
      (λ attempt. (7, refl))

-- A header of which only the timestamp is not zero.
abbrev header : ℕ → Bytes
header t = replicate 68 0 ++ (t ∷ (replicate 11 0))

abbrev headers : Bytes
headers = header 9 ++ (header 7 ++ (header 8 ++ []))

headers_median : median_of_headers headers ≡ ok 8
unfolding median_of_headers timestamps from_le_bytes sort_by_key insert_by_key
headers_median = refl

median_of_headers_median_example :
    let ts = timestamps (length headers / 80) headers in
    (80 * length ts ≡ length headers) × IsRank ts (length ts / 2) 8 × (8 < u32_mod)
median_of_headers_median_example = median_of_headers_median headers 8 (omega arith) headers_median

-- Hexadecimal text with lower case letters.
abbrev hex_digit : ℕ → ℕ
hex_digit n = if ltb n 10 then b'0' + n else 87 + n

abbrev hex_value : ℕ → ℕ
hex_value c = if leb c b'9' then c - b'0' else c - 87

abbrev pub to_hex : Bytes → Text
to_hex [] = []
to_hex (b ∷ rest) = hex_digit (b / 16) ∷ hex_digit (b % 16) ∷ to_hex rest

abbrev of_hex : Text → Option Bytes
of_hex [] = some []
of_hex (c ∷ []) = none
of_hex (c ∷ d ∷ rest) =
    and_then (of_hex rest) (λ bytes. some ((16 * hex_value c + hex_value d) ∷ bytes))

abbrev pub hexed : External
hexed = record toy { hex_encode = to_hex; hex_decode = of_hex }

value_digit : (n : ℕ) → n < 16 → hex_value (hex_digit n) ≡ n
value_digit n h = ground arith

digit_hex : (n : ℕ) → n < 16 → is_ascii_hexdigit (hex_digit n) ≡ true
digit_hex n h = ground arith

of_hex-to_hex : (bytes : Bytes) → All IsByte bytes → of_hex (to_hex bytes) ≡ some bytes
of_hex-to_hex [] h = refl
of_hex-to_hex (b ∷ rest) (hb, h) =
    let high = value_digit (b / 16) (omega arith) in
    let low = value_digit (b % 16) (omega arith) in
    let whole : 16 * hex_value (hex_digit (b / 16)) + hex_value (hex_digit (b % 16)) ≡ b =
      omega (arith, high, low) in
    rw (of_hex-to_hex rest h) (ap (λ n. some (n ∷ rest)) whole)

length-to_hex : (bytes : Bytes) → length (to_hex bytes) ≡ 2 * length bytes
length-to_hex [] = refl
length-to_hex (b ∷ rest) = omega (arith, length-to_hex rest)

to_hex-digits :
    (bytes : Bytes) → All IsByte bytes → All (λ c. is_ascii_hexdigit c ≡ true) (to_hex bytes)
to_hex-digits [] h = tt
to_hex-digits (b ∷ rest) (hb, h) =
    (digit_hex (b / 16) (omega arith), (digit_hex (b % 16) (omega arith), to_hex-digits rest h))

pub hexed-HexLaws : HexLaws hexed
hexed-HexLaws = record {
  read_back = of_hex-to_hex;
  two_digits = length-to_hex;
  digits = to_hex-digits;
}

-- The first draw is no key.
abbrev draws : List (Result Text Bytes)
draws = ok (replicate 32 0) ∷ ok secret ∷ []

abbrev generated : KeyMaterial
generated = record { private_key = secret; public_key = public; pkh = hash160 hexed public }

abbrev key_file : Stored
key_file = stored 0x180 (to_hex secret ++ (0x0a ∷ []))

is_generated : generate_key_file hexed missing draws ≡ some (ok (generated, key_file))
unfolding generate_key_file draw_key write_key from_private_key derive_pubkey secret_scalar nonzero
is_generated = refl

load_key-generate_key_file_example : (missing ≡ missing) × (load_key hexed key_file ≡ ok generated)
load_key-generate_key_file_example =
    load_key-generate_key_file hexed hexed-HexLaws missing draws generated key_file (omega arith)
      is_generated
