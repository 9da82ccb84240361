-- ===== src/Tx/Reader.antt =====
-- A reader of the wire format, written from the CashTokens specification and not from the encoder:
-- what `encode.rs` writes is judged by it.
use ticker_cash.Prelude.{
  ℕ, zero, suc, ◌%◌, ◌/◌, Option, none, some, List, [], ◌∷◌, reverse, length, take, drop, ◌==◌, ltb,
  leb, if◌then◌else◌,
}
use ticker_cash.Bytes.{Bytes, from_le_bytes}
use ticker_cash.Tx.Types.{Input, TokenPrefix, Output, Tx}

-- A reader takes a value from the front of the bytes and leaves the rest.
abbrev pub Reader {ℓ} : Type ℓ → Type ℓ
Reader A = Bytes → Option (A × Bytes)

infixl 5 ◌>>=◌
abbrev pub ◌>>=◌ {ℓ κ} : {A : Type ℓ} {B : Type κ} → Reader A → (A → Reader B) → Reader B
◌>>=◌ r f bs = elim (r bs) [ none ↦ none | some (a, rest) ↦ f a rest ]

abbrev pub pure {ℓ} : {A : Type ℓ} → A → Reader A
pure a bs = some (a, bs)

unfoldable pub read_bytes : ℕ → Reader Bytes
read_bytes n bs = if leb n (length bs) then some (take n bs, drop n bs) else none

unfoldable pub read_le : ℕ → Reader ℕ
read_le w = do bs ← read_bytes w; pure (from_le_bytes bs)

unfoldable pub read_byte : Reader ℕ
read_byte [] = none
read_byte (b ∷ bs) = some (b, bs)

abbrev pub varint_tail : ℕ → Reader ℕ
varint_tail b =
    if ltb b 0xfd
    then pure b
    else if b == 0xfd
    then read_le 2
    else if b == 0xfe
    then read_le 4
    else read_le 8

unfoldable pub read_varint : Reader ℕ
unfolding read_byte
read_varint = do b ← read_byte; varint_tail b

unfoldable pub read_many {ℓ} : {A : Type ℓ} → Reader A → ℕ → Reader (List A)
read_many r zero = pure []
read_many r (suc n) = do a ← r; rest ← read_many r n; pure (a ∷ rest)

unfoldable pub read_input : Reader Input
read_input = do
  txid_le ← read_bytes 32
  vout ← read_le 4
  len ← read_varint
  script ← read_bytes len
  sequence ← read_le 4
  pure (record {
    prev = record { txid_be = reverse txid_le; vout = vout };
    unlock_script = script;
    sequence = sequence;
  })

-- Bits 5 and 6 and 4 of the bitfield: HAS_NFT, HAS_COMMITMENT_LENGTH, HAS_AMOUNT.
abbrev pub commitment_part : ℕ → Reader Bytes
commitment_part bits =
    if bits / 64 % 2 == 1 then (do len ← read_varint; read_bytes len) else pure []

abbrev pub amount_part : ℕ → Reader ℕ
amount_part bits = if bits / 16 % 2 == 1 then read_varint else pure 0

unfoldable pub read_token : Reader TokenPrefix
read_token = do
  category ← read_bytes 32
  bits ← read_byte
  commitment ← commitment_part bits
  amount ← amount_part bits
  pure (record {
    category_le = category;
    capability = bits % 16;
    commitment = commitment;
    amount = amount;
  })

-- A script that begins with 0xef carries a token; what is left is the locking script.
unfoldable pub split_script : Bytes → Option (Option TokenPrefix × Bytes)
split_script [] = some (none, [])
split_script (b ∷ bs) =
    if b == 0xef
    then elim (read_token bs) [ none ↦ none | some (token, lock) ↦ some (some token, lock) ]
    else some (none, b ∷ bs)

abbrev pub lift {ℓ} : {A : Type ℓ} → Option A → Reader A
lift o bs = elim o [ none ↦ none | some a ↦ some (a, bs) ]

unfoldable pub read_output : Reader Output
read_output = do
  value ← read_le 8
  len ← read_varint
  script ← read_bytes len
  (token, lock) ← lift (split_script script)
  pure (record { value = value; locking_script = lock; token = token })

unfoldable pub read_tx : Reader Tx
read_tx = do
  version ← read_le 4
  n ← read_varint
  inputs ← read_many read_input n
  m ← read_varint
  outputs ← read_many read_output m
  locktime ← read_le 4
  pure (record { version = version; inputs = inputs; outputs = outputs; locktime = locktime })
