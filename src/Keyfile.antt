-- ===== src/Keyfile.antt =====
-- node/core/src/keyfile.rs: private keys in files. A path is fixed, so the errors do not name it.
pub mod RoundTrip
use ticker_cash.Prelude.{
  ℕ, ◌+◌, ◌/◌, ◌%◌, Bool, true, false, ◌&&◌, ◌||◌, not, Option, none, some, List, [], ◌∷◌, ◌++◌,
  ◌==◌, leb, ltb, if◌then◌else◌, Result, ok, err, ◌>>=◌, ◌>>◌, ok_or, refuse_if,
}
use ticker_cash.Bytes.{Bytes}
use ticker_cash.Text.{Text, codes, trim}
use ticker_cash.External.{External}
use ticker_cash.Crypto.Hash.{hash160}
use ticker_cash.Crypto.Schnorr.{KeyError, derive_pubkey}

pub record KeyMaterial : Type 0 where
  pub private_key : Bytes
  pub public_key : Bytes
  pub pkh : Bytes

-- An error of the standard library stands by its text.
pub data KeyFileError : Type 0 where
  not_found non_hex : KeyFileError
  io : Text → KeyFileError
  wrong_length : (got_bytes : ℕ) → KeyFileError
  insecure_permissions : (mode : ℕ) → KeyFileError
  crypto : KeyError → KeyFileError

-- What the file system holds at the path: nothing, what cannot be read, or a mode and a text.
pub data Stored : Type 0 where
  missing : Stored
  unreadable : Text → Stored
  stored : (mode : ℕ) (raw : Text) → Stored

-- `char::is_ascii_hexdigit`
abbrev pub is_ascii_hexdigit : ℕ → Bool
is_ascii_hexdigit c =
    (leb b'0' c && leb c b'9') || ((leb b'a' c && leb c b'f') || (leb b'A' c && leb c b'F'))

unfoldable pub all_hexdigits : Text → Bool
all_hexdigits [] = true
all_hexdigits (c ∷ s) = is_ascii_hexdigit c && all_hexdigits s

-- `str::len`, in bytes of UTF-8.
unfoldable pub utf8_len : Text → ℕ
utf8_len [] = 0
utf8_len (c ∷ s) =
    (if ltb c 0x80 then 1 else if ltb c 0x800 then 2 else if ltb c 0x10000 then 3 else 4)
    + utf8_len s

abbrev pub with_crypto : {A : Type 0} → Result KeyError A → Result KeyFileError A
with_crypto (ok a) = ok a
with_crypto (err e) = err (crypto e)

-- `check_secure_permissions` on a file that is there: `mode & 0o777`, and of that `& 0o077`.
unfoldable pub check_secure_permissions : ℕ → Result KeyFileError (Unit {0})
check_secure_permissions mode =
    refuse_if (not (mode % 0x200 % 0x40 == 0)) (insecure_permissions (mode % 0x200))

module _ (x : External) where
  unfoldable pub from_private_key : Bytes → Result KeyError KeyMaterial
  from_private_key private_key = do
    public_key ← derive_pubkey x private_key
    ok (record { private_key = private_key; public_key = public_key; pkh = hash160 x public_key })

  -- `load_key` behind the trimming.
  unfoldable pub read_key : Text → Result KeyFileError KeyMaterial
  read_key trimmed = do
    refuse_if (not (utf8_len trimmed == 64)) (wrong_length (utf8_len trimmed / 2))
    refuse_if (not (all_hexdigits trimmed)) non_hex
    private_key ← ok_or (x.hex_decode trimmed) non_hex
    with_crypto (from_private_key private_key)

  unfoldable pub load_key : Stored → Result KeyFileError KeyMaterial
  load_key missing = err not_found
  load_key (unreadable e) = err (io e)
  load_key (stored mode raw) = do check_secure_permissions mode; read_key (trim raw)

  abbrev pub is_ok : {A : Type 0} → Result KeyError A → Bool
  is_ok (ok a) = true
  is_ok (err e) = false

  -- The loop over what /dev/urandom gives, which may fail; `none` where the draws are used up.
  unfoldable pub draw_key : List (Result Text Bytes) → Option (Result KeyFileError Bytes)
  draw_key [] = none
  draw_key (err e ∷ draws) = some (err (io e))
  draw_key (ok sk ∷ draws) =
      let again = draw_key draws in if is_ok (derive_pubkey x sk) then some (ok sk) else again

  -- The key of a draw, and the file that is written with it, of mode 0600.
  unfoldable pub write_key : Bytes → Result KeyFileError (KeyMaterial × Stored)
  write_key sk = do
    km ← with_crypto (from_private_key sk)
    ok (km, stored 0x180 (x.hex_encode km.private_key ++ (0x0a ∷ [])))

  -- `generate_key_file`, where the path is free; what is there is never overwritten.
  unfoldable pub generate_key_file :
      Stored → List (Result Text Bytes) → Option (Result KeyFileError (KeyMaterial × Stored))
  generate_key_file missing draws = elim (draw_key draws) [
    | none ↦ none
    | some (err e) ↦ some (err e)
    | some (ok sk) ↦ some (write_key sk)
  ]
  generate_key_file (unreadable e) draws = some (err (io (codes "key file exists")))
  generate_key_file (stored mode raw) draws = some (err (io (codes "key file exists")))
