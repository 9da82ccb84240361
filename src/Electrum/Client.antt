-- ===== src/Electrum/Client.antt =====
-- node/core/src/electrum/client.rs: the pool of endpoints and the failover of a request. The outside of
-- the client is what dialling an endpoint and exchanging a line give, attempt by attempt.
use ticker_cash.Prelude.{
  ℕ, zero, suc, ◌+◌, ◌*◌, ◌%◌, Bool, true, false, not, Option, none, some, List, [], ◌∷◌, length,
  get_or, ◌==◌, if◌then◌else◌, Result, ok, err, ◌>>=◌, ok_or,
}
use ticker_cash.Bytes.{Bytes, u64_mod}
use ticker_cash.Text.{Text, codes, trim_end}
use ticker_cash.Electrum.{
  ElectrumError, dns, tls, invalid_server_name, io, json, rpc, tcp, disconnected, bad_shape,
  all_endpoints_down, response_too_large,
}

abbrev pub max_response_line : ℕ
max_response_line = 8 * 1024 * 1024

pub record Endpoint : Type 0 where
  pub host : Text
  pub port : ℕ
  pub tls : Bool

-- A reply that serde_json has read: the text of its error, unless that is absent or null, and its result.
pub record Reply (Value : Type 0) : Type 0 where
  pub error : Option Text
  pub result : Option Value

-- Connections, JSON values, and what the world answers. `dial` is given the number of the attempt;
-- `exchange` is a write and the reading of one line of at most MAX_RESPONSE_LINE bytes.
pub record World : Type 1 where
  pub Stream : Type 0
  pub Value : Type 0
  pub dial : ℕ → Endpoint → Result ElectrumError Stream
  pub exchange : Stream → Bytes → Result ElectrumError Text
  pub from_str : Text → Result Text (Reply Value)
  pub request : (id : ℕ) (method : Text) → Bytes
  pub display : ElectrumError → Text

unfoldable pub is_connection_error : ElectrumError → Bool
is_connection_error disconnected = true
is_connection_error (io e) = true
is_connection_error (json e) = true
is_connection_error (tcp host port e) = true
is_connection_error (dns e) = true
is_connection_error (tls e) = true
is_connection_error (invalid_server_name e) = false
is_connection_error (rpc e) = false
is_connection_error bad_shape = false
is_connection_error (all_endpoints_down tried last) = false
is_connection_error (response_too_large n) = false

-- `endpoints[idx]`, at an index below the length.
abbrev pub endpoint_at : List Endpoint → ℕ → Endpoint
endpoint_at endpoints idx = get_or endpoints idx (record { host = []; port = 0; tls = false })

-- `line.ends_with('\n')`
unfoldable pub ends_line : Text → Bool
ends_line [] = false
ends_line (c ∷ []) = c == 0x0a
ends_line (c ∷ d ∷ s) = ends_line (d ∷ s)

-- `last_err.unwrap_or_default()`
abbrev pub or_default : Option Text → Text
or_default none = []
or_default (some e) = e

module _ (w : World) where
  open w use {Stream, Value, dial, exchange, from_str, request, display}

  -- `ElectrumClient`; the timeout is part of the world.
  pub record Client : Type 0 where
    pub endpoints : List Endpoint
    pub current : ℕ
    pub conn : Option Stream
    pub next_id : ℕ

  -- The two loops over the pool: dial the endpoints from `first + offset` on, round the pool, and return
  -- the first index that answers and its connection.
  unfoldable pub dial_from :
      (endpoints : List Endpoint) (first left offset : ℕ)
      → Option Text
      → Result ElectrumError (ℕ × Stream)
  dial_from endpoints first zero offset last =
      err (all_endpoints_down (length endpoints) (or_default last))
  dial_from endpoints first (suc left) offset last =
      let idx = (first + offset) % length endpoints in
      elim (dial offset (endpoint_at endpoints idx)) [
        | ok conn ↦ ok (idx, conn)
        | err e ↦ dial_from endpoints first left (suc offset) (some (display e))
      ]

  -- `connect_pool`, from the value of PREFERRED; the index in the client is its new value.
  unfoldable pub connect_pool : (preferred : ℕ) → List Endpoint → Result ElectrumError Client
  connect_pool preferred [] = err (all_endpoints_down 0 (codes "empty endpoint pool"))
  connect_pool preferred (ep ∷ rest) =
      let endpoints = ep ∷ rest in
      do
        (idx, conn) ← dial_from endpoints (preferred % length endpoints) (length endpoints) 0 none
        ok (record { endpoints = endpoints; current = idx; conn = some conn; next_id = 1 })

  -- The reply in a line that was read.
  unfoldable pub reply_in : Text → Result ElectrumError Value
  reply_in [] = err disconnected
  reply_in (c ∷ s) =
      if not (ends_line (c ∷ s))
      then err (response_too_large max_response_line)
      else elim (from_str (trim_end (c ∷ s))) [
        | err e ↦ err (json e)
        | ok reply ↦ elim reply.error [ some e ↦ err (rpc e) | none ↦ ok_or reply.result bad_shape ]
      ]

  unfoldable pub send_recv : Option Stream → Bytes → Result ElectrumError Value
  send_recv none buf = err disconnected
  send_recv (some conn) buf = do line ← exchange conn buf; reply_in line

  -- The failover of `call`: every endpoint from the next one on, the current one last.
  unfoldable pub fail_over : Client → Bytes → Result ElectrumError Value × Client
  fail_over c buf = elim (dial_from c.endpoints c.current (length c.endpoints) 1 none) [
    | err e ↦ (err e, record c { conn = none })
    | ok (idx, conn) ↦ (send_recv (some conn) buf, record c { conn = some conn; current = idx })
  ]

  unfoldable pub answer_or_fail_over :
      Client → Bytes → Result ElectrumError Value → Result ElectrumError Value × Client
  answer_or_fail_over c buf (ok v) = (ok v, c)
  answer_or_fail_over c buf (err e) =
      if not (is_connection_error e) then (err e, c) else fail_over c buf

  -- `call`; PREFERRED takes the value of `current` whenever an endpoint is dialled.
  unfoldable pub call : Client → (method : Text) → Result ElectrumError Value × Client
  call c method =
      let buf = request c.next_id method in
      answer_or_fail_over (record c { next_id = (c.next_id + 1) % u64_mod }) buf
        (send_recv c.conn buf)
