-- ===== src/Electrum/Reach.antt =====
-- A pool of which one endpoint answers gives a connection.
use native.Mathlib.Nat.{mod-add-mod, mod-eq_of_lt, add-mod_left, mod-lt}
use ticker_cash.Prelude.{
  ℕ, zero, suc, ◌+◌, ◌-◌, ◌%◌, ◌<◌, ◌≡◌, refl, sym, ap, ◌∙◌, subst, true, Option, none, some, List,
  [], ◌∷◌, length, inl, inr, le_or_lt, ok, err, Result-cases, ok-injective, arith,
}
use ticker_cash.Text.{Text}
use ticker_cash.Electrum.{ElectrumError}
use ticker_cash.Electrum.Client.{
  Endpoint, World, endpoint_at, is_connection_error, Client, dial_from, connect_pool, send_recv,
  fail_over, answer_or_fail_over, call,
}

-- Some number of steps below `n` leads round a pool of `n` to each index.
round_to : (s n i : ℕ) → i < n → (k : ℕ) × (k < n) × ((s + k) % n ≡ i)
round_to s n i lt = elim (le_or_lt (s % n) i) [
  | inl le ↦
      let sum : s % n + (i - s % n) ≡ i = omega arith in
      (
        i - s % n,
        omega arith,
        sym (mod-add-mod s n (i - s % n)) ∙ ap (λ t. t % n) sum ∙ mod-eq_of_lt lt,
      )
  | inr gt ↦
      let small : s % n < n = mod-lt s (omega arith) in
      let sum : s % n + (n + i - s % n) ≡ n + i = omega arith in
      (
        n + i - s % n,
        omega arith,
        sym (mod-add-mod s n (n + i - s % n))
            ∙ ap (λ t. t % n) sum
            ∙ add-mod_left n i
            ∙ mod-eq_of_lt lt,
      )
]

module _ (w : World) where
  -- An endpoint that answers whenever it is dialled.
  abbrev pub IsUp : Endpoint → Type 0
  IsUp ep = (attempt : ℕ) → (conn : w.Stream) × (w.dial attempt ep ≡ ok conn)

  -- The next `k` endpoints do not answer.
  abbrev pub Fails : List Endpoint → (first offset k : ℕ) → Type 0
  Fails endpoints first offset zero = Unit
  Fails endpoints first offset (suc k) =
      ((e : ElectrumError) × (w.dial offset
            (endpoint_at endpoints ((first + offset) % length endpoints))
          ≡ err e))
      × Fails endpoints first (suc offset) k

  -- The first endpoint that answers, behind `k` that do not.
  abbrev pub IsFirst : List Endpoint → (first offset left idx : ℕ) → w.Stream → Type 0
  IsFirst endpoints first offset left idx conn =
      (k : ℕ) × (k < left)
      × Fails endpoints first offset k
      × (idx ≡ (first + (offset + k)) % length endpoints)
      × (w.dial (offset + k) (endpoint_at endpoints idx) ≡ ok conn)

  dial_from-IsFirst :
      (endpoints : List Endpoint) (first left offset : ℕ) (last : Option Text) (idx : ℕ)
      (conn : w.Stream)
      → dial_from w endpoints first left offset last ≡ ok (idx, conn)
      → IsFirst endpoints first offset left idx conn
  unfolding dial_from
  dial_from-IsFirst endpoints first zero offset last idx conn e = cc
  dial_from-IsFirst endpoints first (suc left) offset last idx conn e =
      let here = (first + offset) % length endpoints in
      let zero_more : offset + 0 ≡ offset = omega arith in
      elim (Result-cases (w.dial offset (endpoint_at endpoints here))) [
        | inl (c, answers) ↦
            let pair = ok-injective (rw (answers, dial_from) at e) in
            subst (λ p. IsFirst endpoints first offset (suc left) p.0 p.1) pair
              (
                0,
                omega arith,
                tt,
                ap (λ n. (first + n) % length endpoints) (sym zero_more),
                rw zero_more answers,
              )
        | inr (bad, fails) ↦
            let (k, lt, failing, place, answers) =
              dial_from-IsFirst endpoints first left (suc offset) (some (w.display bad)) idx conn
                (rw (fails, dial_from) at e) in
            let shift : offset + suc k ≡ suc offset + k = omega arith in
            (
              suc k,
              omega arith,
              ((bad, fails), failing),
              place ∙ ap (λ n. (first + n) % length endpoints) (sym shift),
              rw shift answers,
            )
      ]

  -- Where one of the endpoints to come is up, one answers.
  dial_from_reaches :
      (endpoints : List Endpoint) (first left offset : ℕ) (last : Option Text) (k : ℕ)
      → k < left
      → IsUp (endpoint_at endpoints ((first + (offset + k)) % length endpoints))
      → (r : ℕ × w.Stream) × (dial_from w endpoints first left offset last ≡ ok r)
  unfolding dial_from
  dial_from_reaches endpoints first zero offset last k lt up = absurd (omega arith)
  dial_from_reaches endpoints first (suc left) offset last zero lt up =
      let here = (first + offset) % length endpoints in
      let zero_more : offset + 0 ≡ offset = omega arith in
      let (conn, answers) = (rw zero_more at up) offset in
      ((here, conn), rw (answers, dial_from) refl)
  dial_from_reaches endpoints first (suc left) offset last (suc k) lt up =
      let here = (first + offset) % length endpoints in
      let shift : offset + suc k ≡ suc offset + k = omega arith in
      elim (Result-cases (w.dial offset (endpoint_at endpoints here))) [
        | inl (conn, answers) ↦ ((here, conn), rw (answers, dial_from) refl)
        | inr (bad, fails) ↦
            let (r, found) =
              dial_from_reaches endpoints first left (suc offset) (some (w.display bad)) k
                (omega arith) (rw shift at up) in
            (r, rw (fails, dial_from) found)
      ]

  reaches :
      (endpoints : List Endpoint) (first offset i : ℕ) (last : Option Text)
      → i < length endpoints
      → IsUp (endpoint_at endpoints i)
      → (r : ℕ × w.Stream) × (dial_from w endpoints first (length endpoints) offset last ≡ ok r)
  reaches endpoints first offset i last lt up =
      let (k, below, there) = round_to (first + offset) (length endpoints) i lt in
      let assoc : first + (offset + k) ≡ first + offset + k = omega arith in
      dial_from_reaches endpoints first (length endpoints) offset last k below
        (rw (assoc, there) up)

  -- Wherever the search starts, a pool of which one endpoint answers whenever it is dialled gives a client
  -- with a connection to an endpoint of the pool, the first one after the preferred that answers: those
  -- between the two were dialled and failed.
  pub connect_pool_connects :
      (preferred i : ℕ) (endpoints : List Endpoint)
      → i < length endpoints
      → IsUp (endpoint_at endpoints i)
      → (c : Client w) × (conn : w.Stream) × (connect_pool w preferred endpoints ≡ ok c)
        × (c.conn ≡ some conn)
        × (c.endpoints ≡ endpoints)
        × IsFirst endpoints (preferred % length endpoints) 0 (length endpoints) c.current conn
  unfolding connect_pool
  connect_pool_connects preferred i [] lt up = absurd (omega arith)
  connect_pool_connects preferred i (ep ∷ rest) lt up =
      let endpoints : List Endpoint = ep ∷ rest in
      let first = preferred % length endpoints in
      let ((idx, conn), found) = reaches endpoints first 0 i none lt up in
      (
        record { endpoints = endpoints; current = idx; conn = some conn; next_id = 1 },
        conn,
        rw found refl,
        refl,
        refl,
        dial_from-IsFirst endpoints first (length endpoints) 0 none idx conn found,
      )

  -- A request that fails at the connection is sent once more, over the first endpoint after the current
  -- one that answers, and its second answer is returned, whatever it is: where one endpoint of the pool is
  -- up, the client has a connection again.
  pub call_fails_over :
      (c : Client w) (method : Text) (e : ElectrumError) (i : ℕ)
      → send_recv w c.conn (w.request c.next_id method) ≡ err e
      → is_connection_error e ≡ true
      → i < length c.endpoints
      → IsUp (endpoint_at c.endpoints i)
      → (idx : ℕ) × (conn : w.Stream) × IsFirst c.endpoints c.current 1
          (length c.endpoints)
          idx
          conn
        × ((call w c method).0 ≡ send_recv w (some conn) (w.request c.next_id method))
        × ((call w c method).1.conn ≡ some conn)
        × ((call w c method).1.current ≡ idx)
  unfolding call answer_or_fail_over fail_over
  call_fails_over c method e i failed lost lt up =
      let ((idx, conn), found) = reaches c.endpoints c.current 1 i none lt up in
      (
        idx,
        conn,
        dial_from-IsFirst c.endpoints c.current (length c.endpoints) 1 none idx conn found,
        rw (failed, lost, found, fail_over) refl,
        rw (failed, lost, found, fail_over) refl,
        rw (failed, lost, found, fail_over) refl,
      )
