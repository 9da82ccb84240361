-- ===== src/Examples/Minutes.antt =====
-- The notary of node/notary/src/main.rs over two minutes, the first with a failed fetch, and a restart between them.
use ticker_cash.Prelude.{ℕ, ◌≤◌, ◌≡◌, refl, Option, none, some, List, [], ◌∷◌, length, arith}
use ticker_cash.Tx.Build.Sort.{Distinct}
use ticker_cash.Commit.Clock.{cents_from_1e8}
use ticker_cash.Crypto.Schnorr.{
  schnorr_sign, secret_scalar, nonzero, derive_pubkey, rfc6979_nonce, nonce_loop,
}
use ticker_cash.Statement
use ticker_cash.Notary.{
  keep, Notary, Answer, Attempt, contains_key, insert, prune, record_issued, issue, sign_current,
  answered, attempt_once, attempts, minute_step, load_from, load_issued, load_from, load_issued,
}
use ticker_cash.Notary.Invariant.{minute_signed}
use ticker_cash.Notary.Once.{Run, started, minute, restarted, Run-once}
use ticker_cash.Examples.Toy.{toy, secret}

abbrev quoted : ℕ → Option Answer
quoted price = some (record { status = 200; extracted = some price })

abbrev first_minute : List Attempt
first_minute =
    record { answer = none; now = 1_792_200_003; after = 1_792_200_004 }
    ∷ record { answer = quoted 29_000_400_000; now = 1_792_200_011; after = 1_792_200_012 }
    ∷ []

abbrev second_minute : List Attempt
second_minute =
    record { answer = quoted 29_100_600_000; now = 1_792_200_063; after = 1_792_200_064 } ∷ []

abbrev notary_of : Option Notary → Notary
notary_of (some n) = n
notary_of none = record { issued = []; file = [] }

abbrev before : Notary
before = record { issued = []; file = [] }

abbrev after_first : Notary
after_first = notary_of (minute_step toy 1 secret 4 before 29_870_000 3 first_minute)

abbrev started_again : Notary
started_again = record { issued = load_issued after_first.file; file = after_first.file }

abbrev after_second : Notary
after_second = notary_of (minute_step toy 1 secret 4 started_again 29_870_001 3 second_minute)

first_step : minute_step toy 1 secret 4 before 29_870_000 3 first_minute ≡ some after_first
unfolding minute_step attempts attempt_once answered sign_current issue record_issued insert prune
    contains_key cents_from_1e8 Statement.sign schnorr_sign secret_scalar nonzero derive_pubkey
    rfc6979_nonce nonce_loop
first_step = refl

second_step :
    minute_step toy 1 secret 4 started_again 29_870_001 3 second_minute ≡ some after_second
unfolding load_issued load_from Statement.minute minute_step attempts attempt_once answered
    sign_current issue record_issued insert prune contains_key cents_from_1e8 Statement.sign
    schnorr_sign secret_scalar nonzero derive_pubkey rfc6979_nonce nonce_loop
second_step = refl

two_written : length after_second.file ≡ 2
unfolding load_issued load_from Statement.minute minute_step attempts attempt_once answered
    sign_current issue record_issued insert prune contains_key cents_from_1e8 Statement.sign
    schnorr_sign secret_scalar nonzero derive_pubkey rfc6979_nonce nonce_loop
two_written = refl

two_minutes : Run toy 1 secret 4 29_870_001 after_second
two_minutes =
    minute 29_870_000 29_870_001 3 started_again after_second second_minute
      (restarted 29_870_000 after_first (
        minute 0 29_870_000 3 before after_first first_minute started (omega arith) (omega arith)
          first_step))
      (omega arith) (omega arith) second_step

Run-once_example : Distinct minute_signed after_second.file × (length after_second.issued ≤ keep)
Run-once_example = Run-once toy 1 secret 4 29_870_001 after_second two_minutes
