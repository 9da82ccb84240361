-- ===== src/Lib.antt =====
-- ticker.cash: a notarized BCH/USD price feed on Bitcoin Cash. Exchanges' prices are signed by
-- notaries as statements; a builder places at least seven of them on the rows of a table, posts their
-- lower median as the state of an on-chain head, and a majority of the rows can rotate the head.
-- This library models the Rust core of it (node/core/src), the notary's loop and one poll of the daemon's
-- builder, and proves what its functions promise.
--
-- The parts, each with the code that it models:
--   Constants: the protocol's numbers (node/core/src/lib.rs).
--   Commit: the 17-byte snapshots and 37-byte head commitments, the v26 layouts, the minute and the
--     conversion to cents (node/core/src/commit.rs). Commit/Snapshot and Commit/HeadCommit have
--     the methods of the two types, Commit/Legacy those of `mod legacy`.
--   Price: `parse_price_1e8` and `format_price_1e8` (node/core/src/price.rs), over Text, the part of
--     Rust's strings that they use.
--   Crypto: the hashes and Schnorr signatures (node/core/src/crypto.rs).
--   Statement: the two messages that a key signs (node/core/src/statement.rs).
--   Tx: encoding, scripts, signature hashes, covenant scripts (node/core/src/tx/encode.rs, script.rs,
--     sighash.rs, covenant.rs); Tx/Reader is a reader of the wire format written from its rules, against
--     which the encoder is proved.
--   Tx/Cashaddr: the addresses, encoded and decoded, with their checksum (node/core/src/tx/cashaddr.rs).
--   Tx/Build: the builders (node/core/src/tx/build.rs). Sort and Median: the lower median; Select: the
--     placing of statements and approvals on rows; Sign: placeholders, signing, fees; Update, Rotate
--     and Genesis: `build_update`, `build_rotate`, `build_migration`, `build_genesis`.
--   Notary: the issuing of statements (node/notary/src/main.rs), as a function of one minute with the
--     answers of the exchange and of the clock, and Notary/Once the runs of many minutes,
--     in which the notary may be started again from its file.
--   Manifest: the deployment manifest, its checks, its table and its migration (node/core/src/manifest.rs).
--   Sources: the registry of exchanges and the reading of a price (node/core/src/sources.rs), over Json,
--     the operations of serde_json that it uses.
--   Keyfile: the key files (node/core/src/keyfile.rs), with a file as its mode and its text.
--   Electrum: what a server lists (node/core/src/electrum/types.rs); Electrum/Client the pool of endpoints
--     and the failover of a request, Electrum/Headers the median-time-past (electrum/client.rs).
--   Daemon: Daemon/Chain reads heads, Tickers and coins from what a server lists (node/daemon/src/chain.rs);
--     Daemon/Builder is one poll (node/daemon/src/builder.rs): it finds the head through Chain, collects the
--     statements of the notaries, decides with the clock whether to post, and calls Tx/Build/Update.
--     Daemon/Genesis opens a deployment (node/daemon/src/genesis.rs): its coins, its manifest, its head;
--     Daemon/Rotate changes its table, retires it or migrates it (node/daemon/src/rotate.rs).
--   Httpx: the reading and the parsing of an HTTP response, chunked bodies too (node/core/src/httpx.rs), over
--     Text/Utf8 and Text/Split, the methods of strings it calls; a panic is a value of its own here.
--   Examples: runs of all this at concrete inputs, with computing stand-ins for the outside crates.
-- Prelude and Bytes hold what the parts share: tests, lists, `Result` with its `?`, counts, and the
-- little-endian bytes of integers.
--
-- How the code is rendered. A byte is a natural number below 256 and an array a list; lengths and
-- ranges are stated where a property needs them. Sums and differences of machine integers keep their
-- wrap-around (`% 2 ^ w`), as the release profile has it. `Result` and `?` are a type with a bind. What
-- the source pushes on a buffer is returned. A builder fills the value of an output after sizing a
-- draft; here the draft is a function of that value. The sorts of the standard library are an insertion
-- sort.
--
-- Parameters. sha2, ripemd, hmac, hex and k256 are the operations of a record, External, over which
-- the definitions stand; `CurveLaws` states what the signatures rely on of k256: encodings that are read
-- back, the module laws of the group, and that exactly one of a point and its negative has a square y.
-- The compiled covenants (contracts/artifacts) are a record, Artifacts. serde_json is the record Json.
-- The sockets below the Electrum client are a record, World: what the n-th dialling of an endpoint and
-- an exchange over a connection give. The daemon takes the server's answers as a record, Server, and
-- those of the notaries as a function of the row. `HexLaws` states of the hex crate that it writes two
-- digits for a byte and reads them back. That ripemd160 gives 20 bytes is a hypothesis where a new head is
-- decoded.
--
-- Fuel. The nonce loop of RFC 6979 has no bound in the source; it takes fuel here, and `none` is a run
-- out of fuel. One round is enough unless an HMAC is zero or above the curve order. The loop over the chunks of a
-- response may take one round more than there are bytes, and each round takes two bytes at least. Every
-- other loop is structural; the loops that read or draw until they succeed run over the list of what they are
-- given. A panic of the source is `none` as well, or `panicked` in Httpx; the expects that its own checks
-- exclude are a default value.
--
-- Not modelled: sockets, TLS, the deadlines of requests, the reading of JSON and the logging, which are
-- input and output; the daemon's command line, the status page and the endless loop around a poll,
-- and the notary's commands and HTTP interface, which read files and arguments around the modelled
-- functions; the covenants themselves, whose conditions appear as the statements about the builders.
pub mod Prelude
pub mod Bytes
pub mod Constants
pub mod Text
pub mod External
pub mod Json
pub mod Httpx
pub mod Commit
pub mod Price
pub mod Sources
pub mod Manifest
pub mod Crypto
pub mod Statement
pub mod Tx
pub mod Keyfile
pub mod Electrum
pub mod Daemon
pub mod Notary
pub mod Examples
