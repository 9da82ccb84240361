-- ===== src/Keyfile/RoundTrip.antt =====
-- A key that is generated is the key that is loaded.
use mathlib.Core.List.{reverse-append, reverse-reverse}
use ticker_cash.Prelude.{
  ℕ, ◌*◌, ◌≡◌, refl, sym, subst, ap, ◌∙◌, true, false, some, List, [], ◌∷◌, ◌++◌, reverse, length,
  All, All-imp, ltb, Result, ok, err, >>=-eq-ok, ok-injective, some-injective, Bool-cases,
  Result-cases, Option-cases, inl, inr, arith,
}
use ticker_cash.Bytes.{Bytes, IsByte}
use ticker_cash.Text.{Text, is_whitespace, trim_start, trim}
use ticker_cash.Text.Laws.{Solid, Solid-reverse, trim_start-Solid}
use ticker_cash.External.{External}
use ticker_cash.Crypto.Schnorr.{derive_pubkey}
use ticker_cash.Keyfile.{
  KeyMaterial, Stored, missing, unreadable, stored, is_ascii_hexdigit, all_hexdigits, utf8_len,
  with_crypto, from_private_key, check_secure_permissions, read_key, load_key, draw_key, write_key,
  generate_key_file, is_ok,
}

-- What the hex crate promises: two digits for each byte, which are read back.
pub record HexLaws (x : External) : Type 0 where
  pub read_back :
      (bytes : Bytes) → All IsByte bytes → x.hex_decode (x.hex_encode bytes) ≡ some bytes
  pub two_digits : (bytes : Bytes) → length (x.hex_encode bytes) ≡ 2 * length bytes
  pub digits :
      (bytes : Bytes)
      → All IsByte bytes
      → All (λ c. is_ascii_hexdigit c ≡ true) (x.hex_encode bytes)

trim_start_line : (s : Text) → Solid s → trim_start (0x0a ∷ s) ≡ s
unfolding trim_start is_whitespace
trim_start_line s h = trim_start-Solid s h

trim_start_head : (c : ℕ) (s : Text) → is_whitespace c ≡ false → trim_start (c ∷ s) ≡ c ∷ s
unfolding trim_start
trim_start_head c s h = rw h refl

-- A line without white space is trimmed to itself without its end.
trim_line : (c : ℕ) (s : Text) → Solid (c ∷ s) → trim ((c ∷ s) ++ (0x0a ∷ [])) ≡ c ∷ s
unfolding trim
trim_line c s h =
    let front : trim_start ((c ∷ s) ++ (0x0a ∷ [])) ≡ (c ∷ s) ++ (0x0a ∷ []) =
      rw (trim_start_head c (s ++ (0x0a ∷ [])) h.0) refl in
    let back : reverse ((c ∷ s) ++ (0x0a ∷ [])) ≡ 0x0a ∷ reverse (c ∷ s) =
      reverse-append (c ∷ s) (0x0a ∷ []) in
    ap (λ t. reverse (trim_start (reverse t))) front
    ∙ ap (λ t. reverse (trim_start t)) back
    ∙ ap reverse (trim_start_line (reverse (c ∷ s)) (Solid-reverse (c ∷ s) h))
    ∙ reverse-reverse (c ∷ s)

hexdigit_solid : (c : ℕ) → is_ascii_hexdigit c ≡ true → is_whitespace c ≡ false
unfolding is_whitespace
hexdigit_solid c h = ground arith

trim_hex : (s : Text) → All (λ c. is_ascii_hexdigit c ≡ true) s → trim (s ++ (0x0a ∷ [])) ≡ s
unfolding trim trim_start is_whitespace
trim_hex [] h = refl
trim_hex (c ∷ s) h = trim_line c s (
    All-imp (λ c. is_ascii_hexdigit c ≡ true) (λ c. is_whitespace c ≡ false)
      (λ c h. hexdigit_solid c h) (c ∷ s) h)

all_hexdigits_of : (s : Text) → All (λ c. is_ascii_hexdigit c ≡ true) s → all_hexdigits s ≡ true
unfolding all_hexdigits
all_hexdigits_of [] h = refl
all_hexdigits_of (c ∷ s) (hc, h) = rw (hc, all_hexdigits_of s h) refl

utf8_len_of_hexdigits : (s : Text) → All (λ c. is_ascii_hexdigit c ≡ true) s → utf8_len s ≡ length s
unfolding utf8_len
utf8_len_of_hexdigits [] h = refl
utf8_len_of_hexdigits (c ∷ s) (hc, h) =
    let low : ltb c 0x80 ≡ true = ground arith in rw low (omega (arith, utf8_len_of_hexdigits s h))

module _ (x : External) (laws : HexLaws x) where
  read_key-encode :
      (sk : Bytes)
      → All IsByte sk
      → length sk ≡ 32
      → read_key x (x.hex_encode sk) ≡ with_crypto (from_private_key x sk)
  unfolding read_key
  read_key-encode sk bytes len =
      let digits = laws.digits sk bytes in
      let long : utf8_len (x.hex_encode sk) ≡ 64 =
        omega (arith, utf8_len_of_hexdigits (x.hex_encode sk) digits, laws.two_digits sk) in
      rw (long, all_hexdigits_of (x.hex_encode sk) digits, laws.read_back sk bytes) refl

  private_of :
      (sk : Bytes) (km : KeyMaterial)
      → with_crypto (from_private_key x sk) ≡ ok km
      → km.private_key ≡ sk
  unfolding from_private_key
  private_of sk km e = elim (Result-cases (derive_pubkey x sk)) [
    | inl (pk, made) ↦
        sym (ap (λ k. KeyMaterial.private_key k) (ok-injective (rw (made, from_private_key) at e)))
    | inr (bad, refused) ↦ let e' = rw (refused, from_private_key) at e in absurd (cc)
  ]

  load_key-write_key :
      (sk : Bytes) (km : KeyMaterial) (file : Stored)
      → All IsByte sk
      → length sk ≡ 32
      → write_key x sk ≡ ok (km, file)
      → load_key x file ≡ ok km
  unfolding write_key load_key check_secure_permissions
  load_key-write_key sk km file bytes len e =
      let (km', made, e1) = >>=-eq-ok (with_crypto (from_private_key x sk)) _ e in
      let pair = ok-injective e1 in
      let same : km' ≡ km = ap (λ p. p.0) pair in
      let written : stored 0x180 (x.hex_encode km'.private_key ++ (0x0a ∷ [])) ≡ file =
        ap (λ p. p.1) pair in
      let line : x.hex_encode km'.private_key ++ (0x0a ∷ []) ≡ x.hex_encode sk ++ (0x0a ∷ []) =
        ap (λ k. x.hex_encode k ++ (0x0a ∷ [])) (private_of sk km' made) in
      ap (λ f. load_key x f) (sym written ∙ ap (λ raw. stored 0x180 raw) line)
      ∙ ap (λ t. read_key x t) (trim_hex (x.hex_encode sk) (laws.digits sk bytes))
      ∙ read_key-encode sk bytes len
      ∙ made
      ∙ ap ok same

  -- A draw of 32 bytes that the loop ends with.
  abbrev pub Draws : List (Result Text Bytes) → Type 0
  Draws [] = Unit
  Draws (err e ∷ draws) = Draws draws
  Draws (ok sk ∷ draws) = All IsByte sk × (length sk ≡ 32) × Draws draws

  draw_key-Draws :
      (draws : List (Result Text Bytes)) (sk : Bytes)
      → Draws draws
      → draw_key x draws ≡ some (ok sk)
      → All IsByte sk × (length sk ≡ 32)
  unfolding draw_key
  draw_key-Draws [] sk h e = cc
  draw_key-Draws (err bad ∷ draws) sk h e = cc
  draw_key-Draws (ok d ∷ draws) sk (bytes, len, h) e =
      elim (Bool-cases (is_ok x (derive_pubkey x d))) [
        | inl good ↦
            let same : d ≡ sk = ok-injective (some-injective (rw (good, draw_key) at e)) in
            subst (λ s. All IsByte s × (length s ≡ 32)) same (bytes, len)
        | inr bad ↦ draw_key-Draws draws sk h (rw (bad, draw_key) at e)
      ]

  -- Where the hex crate writes two digits for each byte and reads them back, and /dev/urandom gives 32 bytes
  -- at a time: whenever `generate_key_file` succeeds, nothing was at the path before, and `load_key`
  -- accepts the file that it wrote and returns the same key material.
  pub load_key-generate_key_file :
      (before : Stored) (draws : List (Result Text Bytes)) (km : KeyMaterial) (file : Stored)
      → Draws draws
      → generate_key_file x before draws ≡ some (ok (km, file))
      → (before ≡ missing) × (load_key x file ≡ ok km)
  unfolding generate_key_file
  load_key-generate_key_file (unreadable e) draws km file h e' = cc
  load_key-generate_key_file (stored mode raw) draws km file h e = cc
  load_key-generate_key_file missing draws km file h e = elim (Option-cases (draw_key x draws)) [
    | inl out ↦ let e' = rw (out, generate_key_file) at e in absurd (cc)
    | inr (r, drawn) ↦ elim (Result-cases r) [
      | inl (sk, good) ↦
          let drawn' : draw_key x draws ≡ some (ok sk) = drawn ∙ ap some good in
          let (bytes, len) = draw_key-Draws draws sk h drawn' in
          (
            refl,
            load_key-write_key sk km file bytes len
                (some-injective (rw (drawn', generate_key_file) at e)),
          )
      | inr (bad, failed) ↦
          let drawn' : draw_key x draws ≡ some (err bad) = drawn ∙ ap some failed in
          let e' = rw (drawn', generate_key_file) at e in absurd (cc)
    ]
  ]
