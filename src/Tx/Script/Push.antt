-- ===== src/Tx/Script/Push.antt =====
-- Pushes are read back by the script rules, and none is longer than it has to be.
use ticker_cash.Prelude.{
  ℕ, ◌+◌, ◌-◌, ◌^◌, ◌≤◌, ◌<◌, ◌≡◌, refl, true, ◌&&◌, none, some, [], ◌∷◌, ◌++◌, length, ◌==◌, leb,
  if◌then◌else◌, arith, le_or_lt, inl, inr, ◌⊎◌,
}
use ticker_cash.Bytes.{Bytes, le_bytes, u32_mod}
use ticker_cash.Tx.Reader.{Reader, ◌>>=◌, pure, read_bytes, read_byte, read_le}
use ticker_cash.Tx.Reads.{Reads, Reads-bind, Reads-bytes, Reads-le}
use ticker_cash.Tx.Script.{push_sized, push_data}

-- What a push opcode puts on the stack.
abbrev pub after_opcode : ℕ → Reader Bytes
after_opcode op =
    if leb op 75
    then read_bytes op
    else if op == 0x4c
    then (do n ← read_byte; read_bytes n)
    else if op == 0x4d
    then (do n ← read_le 2; read_bytes n)
    else if op == 0x4e
    then (do n ← read_le 4; read_bytes n)
    else if op == 0x4f
    then pure (0x81 ∷ [])
    else if leb 0x51 op && leb op 0x60
    then pure ((op - 0x50) ∷ [])
    else (λ bs. none)

unfoldable pub read_push : Reader Bytes
read_push = do op ← read_byte; after_opcode op

Reads-opcode :
    (op : ℕ) (bs : Bytes) (d : Bytes) → Reads (after_opcode op) bs d → Reads read_push (op ∷ bs) d
unfolding read_push read_byte
Reads-opcode op bs d h = record { at = λ rest. h.at rest }

after_opcode_direct : (op : ℕ) → op ≤ 75 → after_opcode op ≡ read_bytes op
after_opcode_direct op h = let e : leb op 75 ≡ true = ground arith in rw e

after_opcode_small : (op : ℕ) → 0x51 ≤ op → op ≤ 0x60 → after_opcode op ≡ pure ((op - 0x50) ∷ [])
after_opcode_small op lo hi = ground arith

Reads-byte : (b : ℕ) → Reads read_byte (b ∷ []) b
unfolding read_byte
Reads-byte b = record { at = λ rest. refl }

-- The four widths of the length prefix.
push_widths :
    (d : Bytes)
    → ((length d ≤ 75) × (push_sized d ≡ length d ∷ d))
      ⊎ ((75 < length d) × (length d < 256) × (push_sized d ≡ 0x4c ∷ length d ∷ d))
      ⊎ ((255 < length d)
          × (length d < 256 ^ 2)
          × (push_sized d ≡ 0x4d ∷ (le_bytes 2 (length d) ++ d)))
      ⊎ ((0xffff < length d) × (push_sized d ≡ 0x4e ∷ (le_bytes 4 (length d) ++ d)))
unfolding push_sized
push_widths d = elim (le_or_lt (length d) 75) [
  | inl a ↦ inl (a, ground arith)
  | inr a ↦ elim (le_or_lt (length d) 0xff) [
    | inl b ↦ inr (inl (a, omega arith, ground arith))
    | inr b ↦ elim (le_or_lt (length d) 0xffff) [
      | inl c ↦ inr (inr (inl (b, omega arith, ground arith)))
      | inr c ↦ inr (inr (inr (c, ground arith)))
    ]
  ]
]

Reads-push_sized : (d : Bytes) → length d < u32_mod → Reads read_push (push_sized d) d
Reads-push_sized d h = elim (push_widths d) [
  | inl (a, e) ↦
      rw e (Reads-opcode (length d) d d (rw (after_opcode_direct (length d) a) (Reads-bytes d)))
  | inr (inl (a, b, e)) ↦ rw e (
      Reads-opcode 0x4c _ d
        (Reads-bind read_byte _ (length d ∷ []) d (length d) d (Reads-byte _) (Reads-bytes d)))
  | inr (inr (inl (a, b, e))) ↦ rw e (
      Reads-opcode 0x4d _ d
        (Reads-bind (read_le 2) _ _ d (length d) d (Reads-le 2 _ b) (Reads-bytes d)))
  | inr (inr (inr (a, e))) ↦ rw e (
      Reads-opcode 0x4e _ d
        (Reads-bind (read_le 4) _ _ d (length d) d (Reads-le 4 _ h) (Reads-bytes d)))
]

-- The three forms of a push of one byte.
push_one :
    (b : ℕ)
    → ((b ≡ 0x81) × (push_data (b ∷ []) ≡ 0x4f ∷ []))
      ⊎ ((1 ≤ b) × (b ≤ 16) × (push_data (b ∷ []) ≡ (0x51 + (b - 1)) ∷ []))
      ⊎ (push_data (b ∷ []) ≡ push_sized (b ∷ []))
unfolding push_data
push_one b = ground arith

Reads-push_one : (b : ℕ) → Reads read_push (push_data (b ∷ [])) (b ∷ [])
Reads-push_one b = elim (push_one b) [
  | inl (same, e) ↦ rw (e, same) (Reads-opcode 0x4f [] (0x81 ∷ []) (record { at = λ rest. refl }))
  | inr (inl (lo, hi, e)) ↦
      let back : 0x51 + (b - 1) - 0x50 ≡ b = omega arith in
      rw e (
        Reads-opcode (0x51 + (b - 1)) [] (b ∷ []) (
          rw (after_opcode_small (0x51 + (b - 1)) (omega arith) (omega arith), back)
            (record { at = λ rest. refl })))
  | inr (inr e) ↦ rw e (Reads-push_sized (b ∷ []) (omega arith))
]

-- Every string shorter than 2 ^ 32 bytes is read back from its push, and what follows is left.
Reads-push_data : (d : Bytes) → length d < u32_mod → Reads read_push (push_data d) d
Reads-push_data [] h = unfold push_data in Reads-opcode 0 [] [] (Reads-bytes [])
Reads-push_data (b ∷ []) h = Reads-push_one b
Reads-push_data (b ∷ c ∷ rest) h = unfold push_data in Reads-push_sized (b ∷ c ∷ rest) h

-- Data of less than 2^32 bytes is read back from its push by the script rules, and what follows the
-- push is left.
pub read_push-push_data :
    (d rest : Bytes) → length d < u32_mod → read_push (push_data d ++ rest) ≡ some (d, rest)
read_push-push_data d rest h = (Reads-push_data d h).at rest
