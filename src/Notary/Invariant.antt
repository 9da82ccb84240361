-- ===== src/Notary/Invariant.antt =====
-- What a minute of a notary keeps: its map in order, and no minute twice in its file.
use mathlib.Core.Option
use ticker_cash.Prelude.{
  ℕ, ◌+◌, ◌*◌, ◌/◌, ◌%◌, ◌≤◌, ◌<◌, ◌≡◌, ◌≢◌, refl, sym, ap, ◌∙◌, subst, Bool, true, false, ◌||◌,
  not, Option, none, some, List, [], ◌∷◌, ◌++◌, take, max, ◌==◌, ltb, leb, if◌then◌else◌, Result,
  ok, err, All, All-imp, All-append, count, count-append, count_none, arith, ◌⊎◌, inl, inr,
  Bool-cases, le_or_lt, some-injective, ok-injective,
}
use ticker_cash.Bytes.{Bytes, u32_mod}
use ticker_cash.External.{External}
use ticker_cash.Commit.Clock.{cents_from_1e8}
use ticker_cash.Crypto.Hash.{sha256}
use ticker_cash.Crypto.Schnorr.{KeyError, schnorr_sign}
use ticker_cash.Statement
use ticker_cash.Statement.{Statement, map_ok, message}
use ticker_cash.Tx.Build.Sort.{Distinct}
use ticker_cash.Notary.{
  window_secs, minute_of, contains_key, Notary, Answer, Attempt, AttemptError, not_signed,
  record_issued, issue, sign_current, answered, attempt_once, attempts, minute_step,
  last_attempt_sec, retry_spacing,
}
use ticker_cash.Notary.Issued.{IsIssued, IsIssued-prune, latest_stays}

abbrev pub minute_signed : Statement → ℕ
minute_signed st = st.ts / 60

-- The map is in order and short, nothing in it or in the file is later than `last`, a statement for
-- `last` itself is still in the map, and no minute is in the file twice.
pub record IsNotary (last : ℕ) (n : Notary) : Type 0 where
  pub map_in_order : IsIssued n.issued
  pub keys_le : All (λ p. minute_of p ≤ last) n.issued
  pub file_le : All (λ st. minute_signed st ≤ last) n.file
  pub last_kept : All (λ st. minute_signed st ≢ last) n.file ⊎ (contains_key n.issued last ≡ true)
  pub once : Distinct minute_signed n.file

later-IsNotary : (last seq : ℕ) (n : Notary) → last ≤ seq → IsNotary last n → IsNotary seq n
later-IsNotary last seq n le h = elim (le_or_lt seq last) [
  | inl back ↦ let same : last ≡ seq = omega arith in subst (λ l. IsNotary l n) same h
  | inr lt ↦ record {
    map_in_order = h.map_in_order;
    keys_le =
        All-imp (λ p. minute_of p ≤ last) (λ p. minute_of p ≤ seq) (λ p k. omega arith) n.issued
          h.keys_le;
    file_le =
        All-imp (λ st. minute_signed st ≤ last) (λ st. minute_signed st ≤ seq) (λ st k. omega arith)
          n.file h.file_le;
    last_kept = inl (
        All-imp (λ st. minute_signed st ≤ last) (λ st. minute_signed st ≢ seq) (λ st k. omega arith)
          n.file h.file_le);
    once = h.once;
  }
]

once_more :
    (file : List Statement) (st : Statement) (k seq : ℕ)
    → minute_signed st ≡ seq
    → count (λ s. minute_signed s == k) file ≤ 1
    → (k ≡ seq → count (λ s. minute_signed s == k) file ≡ 0)
    → count (λ s. minute_signed s == k) (file ++ (st ∷ [])) ≤ 1
once_more file st k seq on_time before none_yet =
    let total = count-append (λ s. minute_signed s == k) file (st ∷ []) in ground arith

record_issued-IsNotary :
    (seq : ℕ) (n : Notary) (st : Statement)
    → IsNotary seq n
    → contains_key n.issued seq ≡ false
    → minute_signed st ≡ seq
    → IsNotary seq (record_issued n seq st)
unfolding record_issued
record_issued-IsNotary seq n st h absent on_time =
    let (ascending, short) = h.map_in_order in
    let (bounded, kept) = latest_stays n.issued seq st ascending h.keys_le in
    let fresh : All (λ s. minute_signed s ≢ seq) n.file = elim h.last_kept [
      | inl unseen ↦ unseen
      | inr there ↦ absurd (let both = sym there ∙ absent in cc)
    ] in
    let none_yet : (k : ℕ) → k ≡ seq → count (λ s. minute_signed s == k) n.file ≡ 0 = λ k same.
      count_none (λ s. minute_signed s == k) n.file
        (All-imp (λ s. minute_signed s ≢ seq) (λ s. (minute_signed s == k) ≡ false)
          (λ s other. ground arith) n.file fresh) in
    record {
      map_in_order = IsIssued-prune n.issued seq st h.map_in_order;
      keys_le = bounded;
      file_le =
          All-append (λ s. minute_signed s ≤ seq) n.file (st ∷ []) h.file_le (omega arith, tt);
      last_kept = inr kept;
      once = λ k. once_more n.file st k seq on_time (h.once k) (none_yet k);
    }

module _ (x : External) (fuel : ℕ) (private_key : Bytes) (source : ℕ) where
  mapped :
      (f : Bytes → Statement) (o : Option (Result KeyError Bytes)) {s : Statement}
      → Option.map (map_ok f) o ≡ some (ok s)
      → (sig : Bytes) × (f sig ≡ s)
  mapped f none h = cc
  mapped f (some (err e)) h = cc
  mapped f (some (ok sig)) h = (sig, cc)

  sign-ts :
      (ts price : ℕ) (s : Statement)
      → Statement.sign x fuel private_key source ts price ≡ some (ok s)
      → s.ts ≡ ts
  unfolding Statement.sign
  sign-ts ts price s e =
      let (sig, same) =
        mapped (λ sig. record { source = source; ts = ts; price = price; sig = x.hex_encode sig })
          (schnorr_sign x fuel private_key (sha256 x (message source ts price))) e in
      ap (λ (s : Statement). s.ts) (sym same)

  issue-IsNotary :
      (seq : ℕ) (n n' : Notary) (st st' : Statement)
      → issue x fuel private_key source n seq st ≡ ok (st', n')
      → IsNotary seq n
      → minute_signed st ≡ seq
      → IsNotary seq n'
  unfolding issue
  issue-IsNotary seq n n' st st' e h on_time = elim (Bool-cases (contains_key n.issued seq)) [
    | inl there ↦ let bad = rw (there, issue) at e in cc
    | inr absent ↦
        let same = ap (λ p. p.1) (ok-injective (rw (absent, issue) at e)) in
        subst (IsNotary seq) same (record_issued-IsNotary seq n st h absent on_time)
  ]

  signed_outcome :
      (n : Notary) (seq : ℕ) (o : Option (Result KeyError Statement)) {r : Statement × Notary}
      → elim o [
        | none ↦ none
        | some (err e) ↦ some (err (not_signed e))
        | some (ok st) ↦ some (issue x fuel private_key source n seq st)
      ]
        ≡ some (ok r)
      → (st : Statement) × (o ≡ some (ok st)) × (issue x fuel private_key source n seq st ≡ ok r)
  signed_outcome n seq none h = cc
  signed_outcome n seq (some (err e)) h = cc
  signed_outcome n seq (some (ok st)) h = (st, refl, some-injective h)

  sign_current-IsNotary :
      (seq price now : ℕ) (n n' : Notary) (st : Statement)
      → seq * 60 < u32_mod
      → sign_current x fuel private_key source n seq price now ≡ some (ok (st, n'))
      → IsNotary seq n
      → IsNotary seq n'
  unfolding sign_current
  sign_current-IsNotary seq price now n n' st fits e h =
      elim (Bool-cases (ltb now (seq * 60) || leb (seq * 60 + window_secs) now)) [
        | inl outside ↦ let bad = rw (outside, sign_current) at e in cc
        | inr inside ↦
            let (made, signed, issued) =
              signed_outcome n seq
                (Statement.sign x fuel private_key source (seq * 60 % u32_mod) price)
                (rw (inside, sign_current) at e) in
            let ts = sign-ts (seq * 60 % u32_mod) price made signed in
            issue-IsNotary seq n n' made st issued h (omega arith)
      ]

  answered-IsNotary :
      (seq status now : ℕ) (extracted : Option ℕ) (n n' : Notary) (st : Statement)
      → seq * 60 < u32_mod
      → answered x fuel private_key source n seq status extracted now ≡ some (ok (st, n'))
      → IsNotary seq n
      → IsNotary seq n'
  unfolding answered
  answered-IsNotary seq status now none n n' st fits e h = ground arith
  answered-IsNotary seq status now (some price) n n' st fits e h =
      elim (Bool-cases (status == 200)) [
        | inl found ↦
            sign_current-IsNotary seq (cents_from_1e8 price) now n n' st fits
              (rw (found, answered) at e) h
        | inr other ↦ let bad = rw (other, answered) at e in cc
      ]

  attempt_once-IsNotary :
      (seq now : ℕ) (n n' : Notary) (answer : Option Answer) (st : Statement)
      → seq * 60 < u32_mod
      → attempt_once x fuel private_key source n seq answer now ≡ some (ok (st, n'))
      → IsNotary seq n
      → IsNotary seq n'
  unfolding attempt_once
  attempt_once-IsNotary seq now n n' none st fits e h = cc
  attempt_once-IsNotary seq now n n' (some answer) st fits e h =
      answered-IsNotary seq answer.status now answer.extracted n n' st fits e h

  -- One round of the loop, at its outcome and what the later rounds would leave.
  attempts_outcome :
      (seq : ℕ) (n n' : Notary) (over : Bool) (again : Option Notary)
      (o : Option (Result AttemptError (Statement × Notary)))
      → ((st : Statement) (issued : Notary) → o ≡ some (ok (st, issued)) → IsNotary seq issued)
      → (again ≡ some n' → IsNotary seq n')
      → IsNotary seq n
      → elim o [
        | none ↦ none
        | some (ok (st, issued)) ↦ some issued
        | some (err e) ↦ if over then some n else again
      ]
        ≡ some n'
      → IsNotary seq n'
  attempts_outcome seq n n' over again none first rest h e = cc
  attempts_outcome seq n n' over again (some (ok (st, issued))) first rest h e =
      subst (IsNotary seq) (some-injective e) (first st issued refl)
  attempts_outcome seq n n' true again (some (err bad)) first rest h e =
      subst (IsNotary seq) (some-injective e) h
  attempts_outcome seq n n' false again (some (err bad)) first rest h e = rest e

  attempts-IsNotary :
      (seq : ℕ) (n n' : Notary) (left : List Attempt)
      → seq * 60 < u32_mod
      → attempts x fuel private_key source n seq left ≡ some n'
      → IsNotary seq n
      → IsNotary seq n'
  unfolding attempts
  attempts-IsNotary seq n n' [] fits e h = subst (IsNotary seq) (some-injective e) h
  attempts-IsNotary seq n n' (a ∷ rest) fits e h =
      attempts_outcome seq n n'
        (not (a.after / 60 == seq) || ltb last_attempt_sec (a.after % 60 + retry_spacing))
        (attempts x fuel private_key source n seq rest)
        (attempt_once x fuel private_key source n seq a.answer a.now)
        (λ st issued made. attempt_once-IsNotary seq a.now n issued a.answer st fits made h)
        (λ more. attempts-IsNotary seq n n' rest fits more h) h e

  -- Where minutes fit in the u32 of a timestamp, a run of `minute` for a minute that is not before
  -- the last one keeps the notary's invariant: the map in memory is in order and has 2,000 statements
  -- at most, nothing in it or in the file is later than the minute, and the file has no two statements
  -- for one minute.
  pub minute_step-IsNotary :
      (last seq retries : ℕ) (n n' : Notary) (available : List Attempt)
      → last ≤ seq
      → seq * 60 < u32_mod
      → minute_step x fuel private_key source n seq retries available ≡ some n'
      → IsNotary last n
      → IsNotary seq n'
  unfolding minute_step
  minute_step-IsNotary last seq retries n n' available le fits e h =
      let here = later-IsNotary last seq n le h in
      elim (Bool-cases (contains_key n.issued seq)) [
        | inl there ↦ subst (IsNotary seq) (some-injective (rw (there, minute_step) at e)) here
        | inr absent ↦
            attempts-IsNotary seq n n' (take (max retries 1) available) fits
              (rw (absent, minute_step) at e) here
      ]
