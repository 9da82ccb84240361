-- ===== src/Tx/Reads.antt =====
-- Readers that take back what was written: the rules for their combinators, and varints.
use ticker_cash.Prelude.{
  ℕ, ◌^◌, ◌<◌, ◌≡◌, refl, true, some, List, [], ◌∷◌, ◌++◌, append_assoc, length, leb, take-append,
  drop-append, arith, ap, ◌∙◌, length-append, All, le_or_lt, ◌⊎◌, inl, inr,
}
use ticker_cash.Bytes.{Bytes, le_bytes, from_le_bytes, u64_mod}
use ticker_cash.Bytes.Laws.{length-le_bytes, from_le_bytes-le_bytes}
use ticker_cash.Tx.Encode.{encode_varint}
use ticker_cash.Tx.Reader.{Reader, ◌>>=◌, pure, read_bytes, read_le, read_varint, read_many}

-- `r` takes back `a` from the bytes `bs`, whatever follows them.
pub record Reads {ℓ} {A : Type ℓ} (r : Reader A) (bs : Bytes) (a : A) : Type ℓ where
  pub at : (rest : Bytes) → r (bs ++ rest) ≡ some (a, rest)

module _ {ℓ κ} {A : Type ℓ} {B : Type κ} where
  pub bind-some :
      (r : Reader A) (f : A → Reader B) (bs : Bytes) (a : A) (rest : Bytes)
      → r bs ≡ some (a, rest)
      → (r >>= f) bs ≡ f a rest
  bind-some r f bs a rest h = rw (h, ◌>>=◌)

  pub Reads-bind :
      (r : Reader A) (f : A → Reader B) (bs cs : Bytes) (a : A) (b : B)
      → Reads r bs a
      → Reads (f a) cs b
      → Reads (r >>= f) (bs ++ cs) b
  Reads-bind r f bs cs a b hr hf = record {
    at = λ rest.
        rw (append_assoc bs cs rest)
          (bind-some r f (bs ++ (cs ++ rest)) a (cs ++ rest) (hr.at (cs ++ rest)) ∙ hf.at rest);
  }

pub Reads-pure {ℓ} : {A : Type ℓ} (a : A) → Reads (pure a) [] a
Reads-pure a = record { at = λ rest. refl }

pub Reads-bytes : (bs : Bytes) → Reads (read_bytes (length bs)) bs bs
unfolding read_bytes
Reads-bytes bs = record {
  at = λ rest.
      let fits : leb (length bs) (length (bs ++ rest)) ≡ true =
        ground (arith, length-append bs rest) in
      rw (fits, take-append bs rest, drop-append bs rest);
}

pub Reads-bytes' : (n : ℕ) (bs : Bytes) → length bs ≡ n → Reads (read_bytes n) bs bs
Reads-bytes' n bs h = rw h at (Reads-bytes bs)

pub Reads-le : (w v : ℕ) → v < 256 ^ w → Reads (read_le w) (le_bytes w v) v
unfolding read_le
Reads-le w v h = record {
  at = λ rest.
      bind-some (read_bytes w) (λ bs. pure (from_le_bytes bs)) (le_bytes w v ++ rest) (le_bytes w v)
        rest ((Reads-bytes' w (le_bytes w v) (length-le_bytes w v)).at rest)
      ∙ ap (λ n. some (n, rest)) (from_le_bytes-le_bytes w v h);
}

pub Reads-map :
    {A B : Type 0} (r : Reader A) (f : A → B) (bs : Bytes) (a : A)
    → Reads r bs a
    → Reads (r >>= λ x. pure (f x)) bs (f a)
Reads-map r f bs a h = record {
  at = λ rest. bind-some r (λ x. pure (f x)) (bs ++ rest) a rest (h.at rest);
}

varint_widths :
    (n : ℕ)
    → ((n < 0xfd) × (encode_varint n ≡ n ∷ []))
      ⊎ ((n < 256 ^ 2) × (encode_varint n ≡ 0xfd ∷ le_bytes 2 n))
      ⊎ ((n < 256 ^ 4) × (encode_varint n ≡ 0xfe ∷ le_bytes 4 n))
      ⊎ (encode_varint n ≡ 0xff ∷ le_bytes 8 n)
unfolding encode_varint
varint_widths n = elim (le_or_lt 0xfd n) [
  | inr a ↦ inl (a, ground arith)
  | inl a ↦ elim (le_or_lt 0x10000 n) [
    | inr b ↦ inr (inl (omega arith, ground arith))
    | inl b ↦ elim (le_or_lt 0x1_0000_0000 n) [
      | inr c ↦ inr (inr (inl (omega arith, ground arith)))
      | inl c ↦ inr (inr (inr (ground arith)))
    ]
  ]
]

-- A last step that reads nothing.
pub Reads-then :
    {A B : Type 0} (r : Reader A) (f : A → Reader B) (bs : Bytes) (a : A) (b : B)
    → Reads r bs a
    → ((rest : Bytes) → f a rest ≡ some (b, rest))
    → Reads (r >>= f) bs b
Reads-then r f bs a b h done = record {
  at = λ rest. bind-some r f (bs ++ rest) a rest (h.at rest) ∙ done rest;
}

-- Each width of a varint is read back.
pub Reads-varint : (n : ℕ) → n < u64_mod → Reads read_varint (encode_varint n) n
unfolding read_varint
Reads-varint n h = elim (varint_widths n) [
  | inl (a, e) ↦ rw e (record { at = λ rest. ground arith })
  | inr (inl (b, e)) ↦ rw e (record { at = λ rest. (Reads-le 2 n b).at rest })
  | inr (inr (inl (c, e))) ↦ rw e (record { at = λ rest. (Reads-le 4 n c).at rest })
  | inr (inr (inr e)) ↦ rw e (record { at = λ rest. (Reads-le 8 n h).at rest })
]

module _ {A : Type 0} (r : Reader A) (encode : A → Bytes) where
  unfoldable pub encode_all : List A → Bytes
  encode_all [] = []
  encode_all (a ∷ xs) = encode a ++ encode_all xs

  pub Reads-many :
      (xs : List A)
      → All (λ a. Reads r (encode a) a) xs
      → Reads (read_many r (length xs)) (encode_all xs) xs
  unfolding read_many encode_all
  Reads-many [] h = record { at = λ rest. refl }
  Reads-many (a ∷ xs) (ha, hxs) =
      Reads-bind r _ (encode a) (encode_all xs) a (a ∷ xs) ha
        (Reads-map (read_many r (length xs)) (◌∷◌ a) (encode_all xs) xs (Reads-many xs hxs))
