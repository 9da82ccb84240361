-- ===== src/Tx/Covenant.antt =====
-- node/core/src/tx/covenant.rs: the redeem scripts, the locks and the notary table.
use ticker_cash.Prelude.{
  ℕ, ◌+◌, ◌*◌, ◌/◌, Option, none, some, ◌++◌, reverse, length, leb, take, slice, get_or,
  if◌then◌else◌,
}
use ticker_cash.Bytes.{Bytes}
use ticker_cash.Text.{Text}
use ticker_cash.Constants.{table_entry_len}
use ticker_cash.External.{External}
use ticker_cash.Crypto.Hash.{sha256, hash160}
use ticker_cash.Tx.Script.{push_data, p2sh32_locking_script}

-- The compiled bodies under contracts/artifacts, which the source includes and decodes.
pub record Artifacts : Type 0 where
  pub oracle_body : Bytes
  pub ticker_body : Bytes
  pub oracle26_body : Bytes
  pub ticker26_body : Bytes

unfoldable pub redeem_for : Bytes → Bytes → Bytes
redeem_for ticker oracle_body_bytes = push_data ticker ++ oracle_body_bytes

abbrev pub ticker_lock : Artifacts → Bytes
ticker_lock a = a.ticker_body

unfoldable pub oracle_redeem : Artifacts → Bytes
oracle_redeem a = redeem_for a.ticker_body a.oracle_body

unfoldable pub oracle_lock : External → Artifacts → Bytes
oracle_lock x a = p2sh32_locking_script x (oracle_redeem a)

-- The `legacy` scripts.
abbrev pub ticker26_lock : Artifacts → Bytes
ticker26_lock a = a.ticker26_body

unfoldable pub oracle26_redeem : Artifacts → Bytes
oracle26_redeem a = redeem_for a.ticker26_body a.oracle26_body

unfoldable pub oracle26_lock : External → Artifacts → Bytes
oracle26_lock x a = p2sh32_locking_script x (oracle26_redeem a)

unfoldable pub table_hash : External → Bytes → Bytes
table_hash x table = hash160 x table

unfoldable pub table_rows : Bytes → ℕ
table_rows table = length table / table_entry_len

-- The public key and the source byte of a row, if the table has it.
unfoldable pub table_entry : Bytes → ℕ → Option (Bytes × ℕ)
table_entry table row =
    let start = row * table_entry_len in
    if leb (start + table_entry_len) (length table)
    then (let entry = slice start (start + table_entry_len) table in
        some (take 33 entry, get_or entry 33 0))
    else none

unfoldable pub electrum_scripthash : External → Bytes → Text
electrum_scripthash x lock = x.hex_encode (reverse (sha256 x lock))
