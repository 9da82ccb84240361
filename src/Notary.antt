-- ===== src/Notary.antt =====
-- node/notary/src/main.rs: how a notary comes to sign at most one statement for each minute.
pub mod Issued
pub mod Restart
pub mod Invariant
pub mod Once
use ticker_cash.Prelude.{
  ℕ, ◌+◌, ◌*◌, ◌/◌, ◌%◌, Bool, true, false, ◌||◌, not, Option, none, some, List, [], ◌∷◌, ◌++◌,
  length, take, max, ◌==◌, ltb, leb, if◌then◌else◌, Result, ok, err,
}
use ticker_cash.Bytes.{Bytes, u32_mod}
use ticker_cash.External.{External}
use ticker_cash.Commit.Clock.{cents_from_1e8}
use ticker_cash.Crypto.Schnorr.{KeyError}
use ticker_cash.Statement
use ticker_cash.Statement.{Statement}

abbrev pub window_secs : ℕ
window_secs = 90

abbrev pub last_attempt_sec : ℕ
last_attempt_sec = 45

abbrev pub retry_spacing : ℕ
retry_spacing = 6

abbrev pub keep : ℕ
keep = 2_000

-- `BTreeMap<u32, Statement>`: its pairs in the order of the keys.
abbrev pub Issued : Type 0
Issued = List (ℕ × Statement)

abbrev pub minute_of : ℕ × Statement → ℕ
minute_of p = p.0

unfoldable pub contains_key : Issued → ℕ → Bool
contains_key [] seq = false
contains_key (p ∷ rest) seq = minute_of p == seq || contains_key rest seq

unfoldable pub insert : Issued → ℕ → Statement → Issued
insert [] seq st = (seq, st) ∷ []
insert (p ∷ rest) seq st =
    let later = insert rest seq st in
    if ltb seq (minute_of p)
    then (seq, st) ∷ p ∷ rest
    else if seq == minute_of p
    then (seq, st) ∷ rest
    else p ∷ later

-- The loop that removes the first key while more than `keep` are left.
unfoldable pub prune : Issued → Issued
prune [] = []
prune (p ∷ rest) =
    let pruned = prune rest in if ltb keep (length (p ∷ rest)) then pruned else p ∷ rest

-- The loop of `load_issued` over the lines that serde_json reads.
unfoldable pub load_from : Issued → List Statement → Issued
load_from issued [] = issued
load_from issued (st ∷ rest) = load_from (insert issued (Statement.minute st) st) rest

unfoldable pub load_issued : List Statement → Issued
load_issued lines = prune (load_from [] lines)

-- The statements in memory, and the lines of statements.jsonl.
pub record Notary : Type 0 where
  pub issued : Issued
  pub file : List Statement

-- What the exchange answered: the status, and the price that `extract_price` reads, if it does.
pub record Answer : Type 0 where
  pub status : ℕ
  pub extracted : Option ℕ

pub data AttemptError : Type 0 where
  fetch_failed no_price not_current already_issued : AttemptError
  bad_status : ℕ → AttemptError
  not_signed : KeyError → AttemptError

-- One attempt: its answer, the clock when it signs, and the clock after it failed.
pub record Attempt : Type 0 where
  pub answer : Option Answer
  pub now : ℕ
  pub after : ℕ

unfoldable pub record_issued : Notary → ℕ → Statement → Notary
record_issued n seq st = record {
  issued = prune (insert n.issued seq st);
  file = n.file ++ (st ∷ []);
}

module _ (x : External) (fuel : ℕ) (private_key : Bytes) (source : ℕ) where
  -- The end of `attempt_once`, behind the signature.
  unfoldable pub issue : Notary → ℕ → Statement → Result AttemptError (Statement × Notary)
  issue n seq st =
      if contains_key n.issued seq then err already_issued else ok (st, record_issued n seq st)

  unfoldable pub sign_current :
      Notary → ℕ → ℕ → ℕ → Option (Result AttemptError (Statement × Notary))
  sign_current n seq price now =
      if ltb now (seq * 60) || leb (seq * 60 + window_secs) now
      then some (err not_current)
      else elim (Statement.sign x fuel private_key source (seq * 60 % u32_mod) price) [
        | none ↦ none
        | some (err e) ↦ some (err (not_signed e))
        | some (ok st) ↦ some (issue n seq st)
      ]

  -- Behind the fetch: the status and the price that the body holds.
  unfoldable pub answered :
      Notary → ℕ → ℕ → Option ℕ → ℕ → Option (Result AttemptError (Statement × Notary))
  answered n seq status none now =
      if not (status == 200) then some (err (bad_status status)) else some (err no_price)
  answered n seq status (some price) now =
      if not (status == 200)
      then some (err (bad_status status))
      else sign_current n seq (cents_from_1e8 price) now

  -- `none` only where the signature is out of fuel.
  unfoldable pub attempt_once :
      Notary → ℕ → Option Answer → ℕ → Option (Result AttemptError (Statement × Notary))
  attempt_once n seq none now = some (err fetch_failed)
  attempt_once n seq (some answer) now = answered n seq answer.status answer.extracted now

  -- The loop of `minute` over the attempts that are left.
  unfoldable pub attempts : Notary → ℕ → List Attempt → Option Notary
  attempts n seq [] = some n
  attempts n seq (a ∷ rest) =
      let again = attempts n seq rest in
      elim (attempt_once n seq a.answer a.now) [
        | none ↦ none
        | some (ok (st, issued)) ↦ some issued
        | some (err e) ↦
            if not (a.after / 60 == seq) || ltb last_attempt_sec (a.after % 60 + retry_spacing)
            then some n
            else again
      ]

  -- `minute`, with what the exchange and the clock would give to each of its attempts.
  unfoldable pub minute_step : Notary → ℕ → (retries : ℕ) → List Attempt → Option Notary
  minute_step n seq retries available =
      if contains_key n.issued seq then some n else attempts n seq (take (max retries 1) available)
