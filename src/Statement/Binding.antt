-- ===== src/Statement/Binding.antt =====
-- What the two messages bind.
use ticker_cash.Prelude.{
  ℕ, ◌^◌, ◌<◌, ◌≡◌, refl, ap, ◌++◌, length, take, drop, take-append, drop-append, sym, ◌∙◌, get_or,
  ◌↔◌,
}
use ticker_cash.Bytes.{Bytes, le_bytes, from_le_bytes}
use ticker_cash.Bytes.Laws.{length-le_bytes, from_le_bytes-le_bytes}
use ticker_cash.Statement.{message, approval_message}

-- Two lists with parts of one length in front agree in both parts.
append-injective : (a b c d : Bytes) → length a ≡ length c → (a ++ b) ≡ (c ++ d) → (a ≡ c) × (b ≡ d)
append-injective a b c d same e = (
  sym (take-append a b) ∙ ap (take (length a)) e ∙ ap (λ n. take n (c ++ d)) same ∙ take-append c d,
  sym (drop-append a b) ∙ ap (drop (length a)) e ∙ ap (λ n. drop n (c ++ d)) same ∙ drop-append c d,
)

le_bytes-injective : (w m n : ℕ) → m < 256 ^ w → n < 256 ^ w → le_bytes w m ≡ le_bytes w n → m ≡ n
le_bytes-injective w m n hm hn e =
    sym (from_le_bytes-le_bytes w m hm) ∙ ap from_le_bytes e ∙ from_le_bytes-le_bytes w n hn

-- Two statement messages with timestamps and prices that fit in a u32 are equal only where the
-- source, the timestamp and the price are: a signature is for one price of one source at one minute.
pub message-injective :
    (source ts price source' ts' price' : ℕ)
    → ts < 2 ^ 32
    → ts' < 2 ^ 32
    → price < 2 ^ 32
    → price' < 2 ^ 32
    → message source ts price ≡ message source' ts' price'
    → (source ≡ source') × (ts ≡ ts') × (price ≡ price')
unfolding message
message-injective source ts price source' ts' price' a a' b b' e =
    let (front, back) =
      append-injective (le_bytes 4 ts) (le_bytes 4 price) (le_bytes 4 ts') (le_bytes 4 price')
        (length-le_bytes 4 ts ∙ sym (length-le_bytes 4 ts')) (ap (drop 2) e) in
    (
      ap (λ bytes. get_or bytes 1 0) e,
      le_bytes-injective 4 ts ts' a a' front,
      le_bytes-injective 4 price price' b b' back,
    )

-- Two approval messages, for categories of 32 bytes and table hashes of 20, are equal exactly where
-- the category, the old table hash and the concatenation of the next lock and the tail are: the
-- message does not bind where the lock ends and the tail begins.
pub approval_message_binds :
    (category old lock tail category' old' lock' tail' : Bytes)
    → length category ≡ 32
    → length category' ≡ 32
    → length old ≡ 20
    → length old' ≡ 20
    → (approval_message category old lock tail ≡ approval_message category' old' lock' tail')
      ↔ ((category ≡ category') × (old ≡ old') × ((lock ++ tail) ≡ (lock' ++ tail')))
unfolding approval_message
approval_message_binds category old lock tail category' old' lock' tail' c c' o o' = (
  (λ e.
      let (same, rest) =
        append-injective category (old ++ (lock ++ tail)) category' (old' ++ (lock' ++ tail'))
          (c ∙ sym c') (ap (drop 1) e) in
      let (p, q) = append-injective old (lock ++ tail) old' (lock' ++ tail') (o ∙ sym o') rest in
      (same, p, q)),
  (λ (p, q, r). rw (p, q, r) refl),
)
