-- ===== src/Sources.antt =====
-- node/core/src/sources.rs: the exchange registry and the reading of a price from an answer.
pub mod Extract
use ticker_cash.Prelude.{
  ℕ, Bool, Option, none, some, List, [], ◌∷◌, ◌++◌, ◌==◌, if◌then◌else◌, Result, ok, err,
}
use ticker_cash.Bytes.{Bytes}
use ticker_cash.Text.{Text, codes}
use ticker_cash.Price.{PriceError, parse_price_1e8}
use ticker_cash.Json.{Json, Node, string, number, other}

pub data Quote : Type 0 where
  usd usdc usdt : Quote

pub record Source : Type 0 where
  pub id : ℕ
  pub name : Text
  pub label : Text
  pub host : Text
  pub path : Text
  pub quote : Quote
  pub pointers : List Text

abbrev entry : ℕ → (name label host path : Text) → Quote → List Text → Source
entry id name label host path quote pointers = record {
  id = id;
  name = name;
  label = label;
  host = host;
  path = path;
  quote = quote;
  pointers = pointers;
}

-- The 16 entries of SOURCES.
unfoldable pub sources : List Source
sources =
    entry 1 (codes "kraken") (codes "Kraken") (codes "api.kraken.com")
      (codes "/0/public/Ticker?pair=BCHUSD") usd (codes "/result/BCHUSD/c/0" ∷ [])
    ∷ entry 2 (codes "coinbase") (codes "Coinbase") (codes "api.coinbase.com")
        (codes "/v2/prices/BCH-USD/spot") usd (codes "/data/amount" ∷ [])
    ∷ entry 3 (codes "gemini") (codes "Gemini") (codes "api.gemini.com")
        (codes "/v1/pubticker/bchusd") usd (codes "/last" ∷ [])
    ∷ entry 4 (codes "binance_us") (codes "Binance.US") (codes "api.binance.us")
        (codes "/api/v3/ticker/price?symbol=BCHUSD") usd (codes "/price" ∷ [])
    ∷ entry 5 (codes "bitstamp") (codes "Bitstamp") (codes "www.bitstamp.net")
        (codes "/api/v2/ticker/bchusd/") usd (codes "/last" ∷ [])
    ∷ entry 6 (codes "cryptocom") (codes "Crypto.com") (codes "api.crypto.com")
        (codes "/v2/public/get-ticker?instrument_name=BCH_USD") usd
        (codes "/result/data/0/a" ∷ codes "/result/data/a" ∷ [])
    ∷ entry 7 (codes "bitfinex") (codes "Bitfinex") (codes "api-pub.bitfinex.com")
        (codes "/v2/tickers?symbols=tBCHN:USD") usd (codes "/0/7" ∷ [])
    ∷ entry 8 (codes "exmo") (codes "EXMO") (codes "api.exmo.com") (codes "/v1.1/ticker") usd
        (codes "/BCH_USD/last_trade" ∷ [])
    ∷ entry 9 (codes "independentreserve") (codes "Independent Reserve")
        (codes "api.independentreserve.com")
        (codes "/Public/GetMarketSummary?primaryCurrencyCode=Bch&secondaryCurrencyCode=Usd") usd
        (codes "/LastPrice" ∷ [])
    ∷ entry 10 (codes "okx_usdc") (codes "OKX") (codes "www.okx.com")
        (codes "/api/v5/market/ticker?instId=BCH-USDC") usdc (codes "/data/0/last" ∷ [])
    ∷ entry 11 (codes "kucoin_usdc") (codes "KuCoin") (codes "api.kucoin.com")
        (codes "/api/v1/market/orderbook/level1?symbol=BCH-USDC") usdc (codes "/data/price" ∷ [])
    ∷ entry 12 (codes "bybit") (codes "Bybit") (codes "api.bybit.com")
        (codes "/v5/market/tickers?category=spot&symbol=BCHUSDT") usdt
        (codes "/result/list/0/lastPrice" ∷ [])
    ∷ entry 13 (codes "htx") (codes "HTX") (codes "api.huobi.pro")
        (codes "/market/detail?symbol=bchusdt") usdt (codes "/tick/close" ∷ [])
    ∷ entry 14 (codes "gateio") (codes "Gate.io") (codes "api.gateio.ws")
        (codes "/api/v4/spot/tickers?currency_pair=BCH_USDT") usdt (codes "/0/last" ∷ [])
    ∷ entry 15 (codes "bitget") (codes "Bitget") (codes "api.bitget.com")
        (codes "/api/v2/spot/market/tickers?symbol=BCHUSDT") usdt (codes "/data/0/lastPr" ∷ [])
    ∷ entry 16 (codes "binance_usdc") (codes "Binance") (codes "api.binance.com")
        (codes "/api/v3/ticker/price?symbol=BCHUSDC") usdc (codes "/price" ∷ [])
    ∷ []

-- The first entry of a list with the id.
unfoldable pub find_id : ℕ → List Source → Option Source
find_id id [] = none
find_id id (s ∷ rest) = if s.id == id then some s else find_id id rest

unfoldable pub source_by_id : ℕ → Option Source
unfolding find_id
source_by_id id = find_id id sources

pub data ExtractError : Type 0 where
  not_json : Text → ExtractError
  no_pointer bad_type : ExtractError
  price : PriceError → ExtractError

-- `Ok(parse_price_1e8(&text)?)`
abbrev pub with_price_error : Result PriceError ℕ → Result ExtractError ℕ
with_price_error (ok p) = ok p
with_price_error (err e) = err (price e)

-- The text of a node that a pointer resolves to, parsed.
unfoldable pub node_price : Node → Result ExtractError ℕ
node_price (string s) = with_price_error (parse_price_1e8 s)
node_price (number s) = with_price_error (parse_price_1e8 s)
node_price other = err bad_type

module _ (j : Json) where
  -- The loop over the pointers.
  unfoldable pub first_price : j.Value → List Text → Result ExtractError ℕ
  first_price v [] = err no_pointer
  first_price v (p ∷ rest) = elim (j.pointer v p) [
    | some found ↦ node_price (j.node found)
    | none ↦ first_price v rest
  ]

  -- `serde_json::from_slice(body).map_err(..)?` and the loop.
  abbrev pub price_of : Result Text j.Value → List Text → Result ExtractError ℕ
  price_of (err e) pointers = err (not_json e)
  price_of (ok v) pointers = first_price v pointers

  unfoldable pub extract_price : Source → Bytes → Result ExtractError ℕ
  extract_price s body = price_of (j.from_slice body) s.pointers

unfoldable pub url : Source → Text
url s = codes "https://" ++ (s.host ++ s.path)
