-- ===== src/Examples/Signing.antt =====
-- Statements and approvals of node/core/src/statement.rs, signed with the stand-ins.
use ticker_cash.Prelude.{
  ◌≡◌, ◌↔◌, refl, true, Option, none, some, [], ◌∷◌, ◌++◌, length, replicate, Result, ok, err,
  arith,
}
use ticker_cash.Bytes.{Bytes}
use ticker_cash.Crypto.Hash.{sha256}
use ticker_cash.Crypto.Schnorr.{
  schnorr_sign, schnorr_verify, derive_pubkey, secret_scalar, nonzero, rfc6979_nonce, nonce_loop,
  sign_with,
}
use ticker_cash.Crypto.Schnorr.Verify.{schnorr_sign-verifies}
use ticker_cash.Statement.{
  Statement, Approval, message, approval_message, sign, verify, sign_approval, verify_approval,
}
use ticker_cash.Statement.Binding.{message-injective, approval_message_binds}
use ticker_cash.Statement.Signed.{verify-sign, verify_approval-sign_approval}
use ticker_cash.Examples.Toy.{toy, toy-CurveLaws, secret, public, one}

abbrev pub ok_of : {E A : Type 0} → Option (Result E A) → A → A
ok_of (some (ok a)) d = a
ok_of (some (err e)) d = d
ok_of none d = d

abbrev digest : Bytes
digest = replicate 32 5

abbrev digest_sig : Bytes
digest_sig = sign_with toy one public digest one

digest_signed : schnorr_sign toy 1 secret digest ≡ some (ok digest_sig)
unfolding schnorr_sign secret_scalar nonzero derive_pubkey rfc6979_nonce nonce_loop
digest_signed = refl

schnorr_sign-verifies_example :
    (pubkey : Bytes) × (derive_pubkey toy secret ≡ ok pubkey)
    × (length digest_sig ≡ 64)
    × (schnorr_verify toy digest_sig pubkey digest ≡ ok true)
schnorr_sign-verifies_example =
    schnorr_sign-verifies toy toy-CurveLaws 1 secret digest digest_sig digest_signed

abbrev minute_statement : Statement
minute_statement = record {
  source = 4;
  ts = 1_792_200_060;
  price = 29_000;
  sig = sign_with toy one public (sha256 toy (message 4 1_792_200_060 29_000)) one;
}

minute_signed : sign toy 1 secret 4 1_792_200_060 29_000 ≡ some (ok minute_statement)
unfolding sign schnorr_sign secret_scalar nonzero derive_pubkey rfc6979_nonce nonce_loop
minute_signed = refl

verify-sign_example :
    (pubkey : Bytes) × (derive_pubkey toy secret ≡ ok pubkey)
    × (verify toy minute_statement pubkey ≡ true)
    × (minute_statement.source ≡ 4)
    × (minute_statement.ts ≡ 1_792_200_060)
    × (minute_statement.price ≡ 29_000)
verify-sign_example =
    verify-sign toy toy-CurveLaws (λ bytes. refl) 1 secret 4 1_792_200_060 29_000 minute_statement
      minute_signed

abbrev category : Bytes
category = replicate 32 5

abbrev old_hash : Bytes
old_hash = replicate 20 3

abbrev next_lock : Bytes
next_lock = 0xaa ∷ 0x20 ∷ 0x87 ∷ []

abbrev tail : Bytes
tail = replicate 20 4

abbrev rotation_approval : Approval
rotation_approval = record {
  pubkey = public;
  old_table_hash = old_hash;
  next_lock = next_lock;
  tail = tail;
  sig =
      sign_with toy one public (sha256 toy (approval_message category old_hash next_lock tail)) one;
}

rotation_signed :
    sign_approval toy 1 secret public category old_hash next_lock tail ≡ some (ok rotation_approval)
unfolding sign_approval schnorr_sign secret_scalar nonzero derive_pubkey rfc6979_nonce nonce_loop
rotation_signed = refl

key_derived : derive_pubkey toy secret ≡ ok public
unfolding derive_pubkey secret_scalar nonzero
key_derived = refl

verify_approval-sign_approval_example :
    verify_approval toy rotation_approval category old_hash next_lock tail ≡ true
verify_approval-sign_approval_example =
    verify_approval-sign_approval toy toy-CurveLaws (λ bytes. refl) 1 secret public category
      old_hash next_lock tail rotation_approval key_derived refl rotation_signed

message-injective_example :
    (minute_statement.source ≡ 4)
    × (minute_statement.ts ≡ 1_792_200_060)
    × (minute_statement.price ≡ 29_000)
message-injective_example =
    message-injective minute_statement.source minute_statement.ts minute_statement.price 4
      1_792_200_060 29_000 (omega arith) (omega arith) (omega arith) (omega arith) refl

abbrev one_two : Bytes
one_two = 1 ∷ 2 ∷ []

abbrev only_one : Bytes
only_one = 1 ∷ []

abbrev only_three : Bytes
only_three = 3 ∷ []

abbrev two_three : Bytes
two_three = 2 ∷ 3 ∷ []

-- One lock and tail split in two ways: one message.
approval_message_binds_example :
    (approval_message category old_hash one_two only_three
      ≡ approval_message category old_hash only_one two_three)
    ↔ ((category ≡ category)
        × (old_hash ≡ old_hash)
        × ((one_two ++ only_three) ≡ (only_one ++ two_three)))
approval_message_binds_example =
    approval_message_binds category old_hash one_two only_three category old_hash only_one two_three
      refl refl refl refl
