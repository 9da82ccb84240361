-- ===== src/Sources/Extract.antt =====
-- Which answers of an exchange give a price.
use ticker_cash.Prelude.{
  ℕ, ◌≡◌, ◌↔◌, ◌⊎◌, inl, inr, refl, ap, none, some, List, [], ◌∷◌, ◌++◌, All, Result, ok, err,
  Option-cases, arith,
}
use ticker_cash.Bytes.{Bytes}
use ticker_cash.Text.{Text}
use ticker_cash.Price.{parse_price_1e8}
use ticker_cash.Json.{Json, Node, string, number, other}
use ticker_cash.Sources.{Source, node_price, first_price, price_of, extract_price}

-- A text or a number with the price.
abbrev Reads : Node → ℕ → Type 0
Reads node p = (s : Text) × ((node ≡ string s) ⊎ (node ≡ number s)) × (parse_price_1e8 s ≡ ok p)

node_price-Reads : (node : Node) (p : ℕ) → node_price node ≡ ok p → Reads node p
unfolding node_price
node_price-Reads (string s) p h = (s, inl refl, ground arith)
node_price-Reads (number s) p h = (s, inr refl, ground arith)
node_price-Reads other p h = cc

Reads-node_price : (node : Node) (p : ℕ) → Reads node p → node_price node ≡ ok p
unfolding node_price
Reads-node_price node p (s, inl e, h) = rw (e, node_price, h) refl
Reads-node_price node p (s, inr e, h) = rw (e, node_price, h) refl

module _ (j : Json) where
  -- One pointer resolves to a price, and none before it resolves to anything.
  abbrev pub FirstPrice : j.Value → List Text → ℕ → Type 0
  FirstPrice v pointers p =
      (before : List Text) × (pointer : Text) × (after : List Text) × (found : j.Value) × (pointers
        ≡ before ++ (pointer ∷ after))
      × All (λ q. j.pointer v q ≡ none) before
      × (j.pointer v pointer ≡ some found)
      × Reads (j.node found) p

  first_price-FirstPrice :
      (v : j.Value) (pointers : List Text) (p : ℕ)
      → first_price j v pointers ≡ ok p
      → FirstPrice v pointers p
  unfolding first_price
  first_price-FirstPrice v [] p h = cc
  first_price-FirstPrice v (q ∷ rest) p h = elim (Option-cases (j.pointer v q)) [
    | inl misses ↦
        let (before, pointer, after, found, e, missing, resolves, reads) =
          first_price-FirstPrice v rest p (rw (misses, first_price) at h) in
        (q ∷ before, pointer, after, found, ap (◌∷◌ q) e, (misses, missing), resolves, reads)
    | inr (found, resolves) ↦ (
      [],
      q,
      rest,
      found,
      refl,
      tt,
      resolves,
      node_price-Reads (j.node found) p (rw (resolves, first_price) at h),
    )
  ]

  first_price-append :
      (v : j.Value) (before after : List Text) (pointer : Text) (found : j.Value)
      → All (λ q. j.pointer v q ≡ none) before
      → j.pointer v pointer ≡ some found
      → first_price j v (before ++ (pointer ∷ after)) ≡ node_price (j.node found)
  unfolding first_price
  first_price-append v [] after pointer found h resolves = rw resolves refl
  first_price-append v (q ∷ before) after pointer found (miss, h) resolves =
      rw miss (first_price-append v before after pointer found h resolves)

  -- `extract_price` returns a price exactly where the body is JSON in which one of the source's pointers
  -- resolves to a text or a number with that price, and no earlier pointer resolves to anything.
  pub extract_price_iff :
      (s : Source) (body : Bytes) (p : ℕ)
      → (extract_price j s body ≡ ok p)
        ↔ ((v : j.Value) × (j.from_slice body ≡ ok v) × FirstPrice v s.pointers p)
  unfolding extract_price
  extract_price_iff s body p = (to (j.from_slice body), from)
    where
      to :
          (read : Result Text j.Value)
          → price_of j read s.pointers ≡ ok p
          → (v : j.Value) × (read ≡ ok v) × FirstPrice v s.pointers p
      to (err e) h = cc
      to (ok v) h = (v, refl, first_price-FirstPrice v s.pointers p h)

      from :
          (v : j.Value) × (j.from_slice body ≡ ok v) × FirstPrice v s.pointers p
          → extract_price j s body ≡ ok p
      from (v, read, (before, pointer, after, found, e, missing, resolves, reads)) =
          rw (read, e)
            (rw (first_price-append v before after pointer found missing resolves)
              (Reads-node_price (j.node found) p reads))
