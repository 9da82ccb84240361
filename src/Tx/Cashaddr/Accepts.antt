-- ===== src/Tx/Cashaddr/Accepts.antt =====
-- Which locks have an address, and which texts decode.
use ticker_cash.Prelude.{
  ℕ, ◌%◌, ◌<◌, ◌≡◌, ◌↔◌, ◌⊎◌, refl, sym, ap, get_or, drop, none, [], ◌∷◌, map, length, ok, ok_or,
  >>=-eq-ok, ok_or-eq-ok, arith,
}
use ticker_cash.Bytes.{Bytes}
use ticker_cash.Text.{Text}
use ticker_cash.Tx.Cashaddr.{
  AddressPrefix, alphabet, encode_lock_cashaddr, invalid_char, position, read_symbols,
}

-- A locking script has an address exactly where it has 1 to 201 bytes.
encode_lock_cashaddr-none :
    (lock : Bytes) (prefix : AddressPrefix)
    → (encode_lock_cashaddr lock prefix ≡ none) ↔ ((length lock ≡ 0) ⊎ (201 < length lock))
unfolding encode_lock_cashaddr
encode_lock_cashaddr-none lock prefix = ground arith

low_byte : (c : ℕ) → c % 256 % 256 ≡ c % 256
low_byte c = omega arith

-- Two texts of the same low bytes are read alike, where one is read at all.
same_symbols :
    (body other : Text) (data5 : Bytes)
    → map (λ c. c % 256) body ≡ map (λ c. c % 256) other
    → read_symbols body ≡ ok data5
    → read_symbols other ≡ ok data5
unfolding read_symbols
same_symbols [] [] data5 same e = e
same_symbols [] (d ∷ other) data5 same e = cc
same_symbols (c ∷ body) [] data5 same e = cc
same_symbols (c ∷ body) (d ∷ other) data5 same e =
    let low : c % 256 ≡ d % 256 = ap (λ bytes. get_or bytes 0 0) same in
    let (pos, found, e1) = >>=-eq-ok (ok_or (position (c % 256) alphabet 0) (invalid_char c)) _ e in
    let (rest, read, e2) = >>=-eq-ok (read_symbols body) _ e1 in
    let there = same_symbols body other rest (ap (drop 1) same) read in
    let at_d = rw low at (ok_or-eq-ok (position (c % 256) alphabet 0) (invalid_char c) found) in
    rw (at_d, there) e2

low_bytes : (body : Text) → map (λ c. c % 256) (map (λ c. c % 256) body) ≡ map (λ c. c % 256) body
low_bytes [] = refl
low_bytes (c ∷ body) = rw (low_byte c) (ap (λ rest. c % 256 ∷ rest) (low_bytes body))

-- The symbols that are read hang on the low bytes of the characters only: a text of characters that
-- are no symbols at all is read where their low bytes are symbols.
pub read_symbols-low_bytes :
    (body : Text) (data5 : Bytes)
    → (read_symbols body ≡ ok data5) ↔ (read_symbols (map (λ c. c % 256) body) ≡ ok data5)
read_symbols-low_bytes body data5 = (
  same_symbols body (map (λ c. c % 256) body) data5 (sym (low_bytes body)),
  same_symbols (map (λ c. c % 256) body) body data5 (low_bytes body),
)
