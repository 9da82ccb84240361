-- ===== src/Statement.antt =====
-- node/core/src/statement.rs: the two messages that a table key signs, and their signed forms.
pub mod Binding
pub mod Signed
use mathlib.Core.Option
use ticker_cash.Prelude.{
  ℕ, ◌/◌, Bool, true, false, ◌||◌, not, Option, none, some, and_then, [], ◌∷◌, ◌++◌, length,
  reverse, ◌==◌, if◌then◌else◌, Result, ok, err,
}
use ticker_cash.Bytes.{Bytes, le_bytes, bytes_eq}
use ticker_cash.Text.{Text}
use ticker_cash.Constants.{statement_tag, approval_tag}
use ticker_cash.External.{External}
use ticker_cash.Crypto.Hash.{sha256}
use ticker_cash.Crypto.Schnorr.{KeyError, schnorr_sign, schnorr_verify}

-- The source writes the four fields into the 10 bytes in this order.
unfoldable pub message : (source ts price : ℕ) → Bytes
message source ts price = statement_tag ∷ source ∷ (le_bytes 4 ts ++ le_bytes 4 price)

unfoldable pub approval_message : (category_vm old_table_hash next_lock tail : Bytes) → Bytes
approval_message category_vm old_table_hash next_lock tail =
    approval_tag ∷ (category_vm ++ (old_table_hash ++ (next_lock ++ tail)))

-- `try_into()` an array of n bytes.
unfoldable pub try_array : ℕ → Bytes → Option Bytes
try_array n bytes = if length bytes == n then some bytes else none

-- `unwrap_or(false)`
abbrev pub unwrap_or_false : {E : Type 0} → Result E Bool → Bool
unwrap_or_false (ok b) = b
unwrap_or_false (err e) = false

-- `Ok(f(value?))`
abbrev pub map_ok : {E A B : Type 0} → (A → B) → Result E A → Result E B
map_ok f (ok a) = ok (f a)
map_ok f (err e) = err e

-- `o == Some(bytes)`
abbrev pub decodes_to : Option Bytes → Bytes → Bool
decodes_to none bytes = false
decodes_to (some got) bytes = bytes_eq got bytes

pub record Statement : Type 0 where
  pub source : ℕ
  pub ts : ℕ
  pub price : ℕ
  pub sig : Text

pub record Approval : Type 0 where
  pub pubkey : Text
  pub old_table_hash : Text
  pub next_lock : Text
  pub tail : Text
  pub sig : Text

-- `Statement::minute`
unfoldable pub minute : Statement → ℕ
minute s = s.ts / 60

module _ (x : External) where
  -- `hex::decode(..).ok()?.try_into().ok()`
  unfoldable pub decode_array : ℕ → Text → Option Bytes
  decode_array n text = and_then (x.hex_decode text) (try_array n)

  unfoldable pub category_vm_from_display_hex : Text → Option Bytes
  category_vm_from_display_hex display_hex = Option.map reverse (decode_array 32 display_hex)

  -- `Statement::sign`; `none` only where `schnorr_sign` is out of fuel.
  unfoldable pub sign : ℕ → Bytes → (source ts price : ℕ) → Option (Result KeyError Statement)
  sign fuel privkey source ts price =
      Option.map
        (map_ok (λ sig. record { source = source; ts = ts; price = price; sig = x.hex_encode sig }))
        (schnorr_sign x fuel privkey (sha256 x (message source ts price)))

  unfoldable pub sig_bytes : Statement → Option Bytes
  sig_bytes s = decode_array 64 s.sig

  unfoldable pub verify : Statement → Bytes → Bool
  verify s pubkey = elim (sig_bytes s) [
    | none ↦ false
    | some sig ↦
        unwrap_or_false (schnorr_verify x sig pubkey (sha256 x (message s.source s.ts s.price)))
  ]

  -- `Approval::sign`
  unfoldable pub sign_approval :
      ℕ
      → Bytes
      → (pubkey category_vm old_table_hash next_lock tail : Bytes)
      → Option (Result KeyError Approval)
  sign_approval fuel privkey pubkey category_vm old_table_hash next_lock tail =
      Option.map
        (map_ok (λ sig. record {
          pubkey = x.hex_encode pubkey;
          old_table_hash = x.hex_encode old_table_hash;
          next_lock = x.hex_encode next_lock;
          tail = x.hex_encode tail;
          sig = x.hex_encode sig;
        }))
        (schnorr_sign x fuel privkey
          (sha256 x (approval_message category_vm old_table_hash next_lock tail)))

  unfoldable pub approval_sig_bytes : Approval → Option Bytes
  approval_sig_bytes a = decode_array 64 a.sig

  unfoldable pub approval_pubkey_bytes : Approval → Option Bytes
  approval_pubkey_bytes a = decode_array 33 a.pubkey

  -- The fields of the approval name the rotation that it is checked for.
  unfoldable pub names_rotation : Approval → (old_table_hash next_lock tail : Bytes) → Bool
  names_rotation a old_table_hash next_lock tail = not (
      not (decodes_to (x.hex_decode a.old_table_hash) old_table_hash)
      || (not (decodes_to (x.hex_decode a.next_lock) next_lock)
          || not (decodes_to (x.hex_decode a.tail) tail)))

  -- `Approval::verify`
  unfoldable pub verify_approval :
      Approval → (category_vm old_table_hash next_lock tail : Bytes) → Bool
  verify_approval a category_vm old_table_hash next_lock tail = elim (approval_sig_bytes a) [
    | none ↦ false
    | some sig ↦ elim (approval_pubkey_bytes a) [
      | none ↦ false
      | some pk ↦
          if not (names_rotation a old_table_hash next_lock tail)
          then false
          else unwrap_or_false (
              schnorr_verify x sig pk
                (sha256 x (approval_message category_vm old_table_hash next_lock tail)))
    ]
  ]
