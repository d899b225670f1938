-- ===== src/Market/Yahoo.antt =====
-- src/marketdata/provider.py: `YahooFinanceMarketDataProvider`. `F` stands for a JSON number and for
-- Python's `float`, `C` for the HTTP client.
pub mod Series
pub mod Errors
pub mod Candles
use Prim.Native.String
use pentagon5_foundation.Prelude.{
  ℕ, zero, suc, String, ◌-◌, Bool, true, false, ◌&&◌, ◌||◌, not, Option, none, some, List, [], ◌∷◌,
  ◌++◌, Result, ok, err, Exec, pure, raise, lift, ◌>>=◌, and_then, check, str_eq, one_of, is_none,
  if◌then◌else◌, length,
}
use pentagon5_foundation.Prelude.Dict.{Dict}
use pentagon5_foundation.Prelude.Json.{
  Json, Items, Members, null, bool, number, text, array, object, get, elements,
}
use pentagon5_foundation.Strategy.Models.{Quote, Ohlcv}
use pentagon5_foundation.Market.Yahoo.Series.{nth, latest_complete}

-- What the parsing of a document raises. An `OverflowError` or `OSError` comes from a number that is
-- out of range.
pub data Raised : Type 0 where
  index_error key_error type_error overflow_error : Raised
  value_error : String → Raised

-- The errors of `except (IndexError, KeyError, TypeError, ValueError)`
abbrev pub is_caught : Raised → Bool
is_caught index_error = true
is_caught key_error = true
is_caught type_error = true
is_caught (value_error e) = true
is_caught overflow_error = false

-- What a method raises; `other_error` is any exception of the request that is not caught.
pub data Error : Type 0 where
  python_error : Raised → Error
  provider_error : String → Error
  other_error : Error

-- What a request raises: an `httpx.HTTPError`, a `ValueError` of the parser of JSON, or another
-- exception, such as a `RuntimeError` of a closed client, `httpx.InvalidURL` or a `RecursionError`.
pub data RequestError : Type 0 where
  http_error invalid_json other_failure : RequestError

pub record Provider (C : Type 0) : Type 0 where
  pub client : Option C
  pub subscriptions : List String

-- `request` is the document that a client gets for a path with parameters, or what `get`,
-- `raise_for_status` or `json` raises; then `float`, `datetime.fromtimestamp`, `str.strip`, `str.upper` and `quote`.
pub record Web (F C : Type 0) : Type 0 where
  pub new_client : C
  pub request : C → String → Dict String → Result RequestError (Json F)
  pub to_float : F → Result Raised F
  pub from_timestamp : F → Result Raised ℕ
  pub strip : String → String
  pub upper : String → String
  pub url_quote : String → String

abbrev pub Call : Type 0 → Type 0 → Type 0
Call C A = Exec Error (Provider C) A

-- `value[key]`
unfoldable pub at_key : {F : Type 0} → String → Json F → Result Raised (Json F)
at_key key (object d) = elim (get key d) [ none ↦ err key_error | some v ↦ ok v ]
at_key key _ = err type_error

-- `value[0]`
unfoldable pub at_zero : {F : Type 0} → Json F → Result Raised (Json F)
at_zero (array a) = elim (elements a) [ [] ↦ err index_error | v ∷ vs ↦ ok v ]
at_zero (object d) = err key_error
at_zero (text String.[]) = err index_error
at_zero (text (String.◌∷◌ c s)) = ok (text (String.◌∷◌ c String.[]))
at_zero _ = err type_error

-- `items[index]`
abbrev pub at_index : {F : Type 0} → ℕ → List (Json F) → Result Raised (Json F)
at_index i vs = elim (nth i vs) [ none ↦ err index_error | some v ↦ ok v ]

-- A call that the `except` clause turns into the provider's error.
abbrev pub parsed : {A : Type 0} → String → Result Raised A → Result Error A
parsed message (ok a) = ok a
parsed message (err e) = err (if is_caught e then provider_error message else python_error e)

module _ {F C : Type 0} (w : Web F C) where
  unfoldable pub connect : Call C (Unit {0})
  connect p = elim p.client [
    | none ↦ (ok tt, record p { client = some w.new_client })
    | some c ↦ (ok tt, p)
  ]

  -- `disconnect`, with the client that it closes.
  unfoldable pub disconnect : Call C (Option C)
  disconnect p = elim p.client [
    | none ↦ (ok none, p)
    | some c ↦ (ok (some c), record p { client = none })
  ]

  -- `_symbol`
  unfoldable pub symbol_of : String → Result Error String
  symbol_of symbol =
      let normalized = w.upper (w.strip symbol) in
      if str_eq normalized ""
      then err (python_error (value_error "symbol must not be empty"))
      else ok normalized

  unfoldable pub subscribe : String → Call C (Unit {0})
  subscribe symbol p = elim (symbol_of symbol) [
    | err e ↦ (err e, p)
    | ok s ↦ (
      ok tt,
      if one_of s p.subscriptions then p else record p { subscriptions = s ∷ p.subscriptions },
    )
  ]

  unfoldable pub payload_of : Result RequestError (Json F) → Result Error (Json F)
  payload_of (err http_error) = err (provider_error "Yahoo Finance request failed")
  payload_of (err invalid_json) = err (provider_error "Yahoo Finance request failed")
  payload_of (err other_failure) = err other_error
  payload_of (ok (object d)) = ok (object d)
  payload_of (ok _) = err (provider_error "Yahoo Finance returned a malformed response")

  -- `_get_json` after `connect`, which has set the client: without one the assertion fails.
  abbrev pub requested : Option C → String → Dict String → Result Error (Json F)
  requested none path params = err other_error
  requested (some c) path params = payload_of (w.request c path params)

  unfoldable pub get_json : String → Dict String → Call C (Json F)
  get_json path params p = let p' = (connect p).1 in (requested p'.client path params, p')

  unfoldable pub float_of : Json F → Result Raised F
  float_of (number n) = w.to_float n
  float_of _ = err type_error

  -- `_number`
  unfoldable pub number_at : Json F → String → Result Raised F
  number_at values key = and_then (at_key key values) float_of

  -- `_timestamp`
  unfoldable pub timestamp_of : Json F → Result Raised ℕ
  timestamp_of (number n) = w.from_timestamp n
  timestamp_of _ = err type_error

  -- `_array_number`
  unfoldable pub array_number : Json F → String → ℕ → Result Raised F
  array_number values key index = and_then (at_key key values) λ items. elim items [
    | array a ↦ and_then (at_index index (elements a)) float_of
    | _ ↦ err type_error
  ]

  -- `_latest_complete_index`
  unfoldable pub latest_complete_index : Json F → Json F → Result Raised ℕ
  latest_complete_index (array timestamps) (object values) =
      elim (latest_complete (length (elements timestamps)) values) [
        | none ↦ err (value_error "OHLCV series has no complete candle")
        | some index ↦ ok index
      ]
  latest_complete_index _ _ = err type_error

  unfoldable pub quote_of : String → Json F → Result Raised (Quote F)
  quote_of normalized payload = and_then (at_key "quoteResponse" payload) λ response.
      and_then (at_key "result" response) λ results. and_then (at_zero results) λ result.
        and_then (number_at result "bid") λ bid. and_then (number_at result "ask") λ ask.
          and_then (number_at result "regularMarketPrice") λ last_price.
            and_then (number_at result "regularMarketVolume") λ volume.
              and_then (at_key "regularMarketTime" result) λ time.
                and_then (timestamp_of time) λ timestamp. ok (record {
                  symbol = normalized;
                  bid = bid;
                  ask = ask;
                  last_price = last_price;
                  volume = volume;
                  timestamp = timestamp;
                })

  unfoldable pub get_quote : String → Call C (Quote F)
  get_quote symbol p = elim (symbol_of symbol) [
    | err e ↦ (err e, p)
    | ok s ↦
        let (payload, p') = get_json "/v7/finance/quote" (("symbols", s) ∷ []) p in
        (
          and_then payload λ d.
              parsed (String.◌++◌ "Yahoo Finance returned invalid quote data for " s)
                (quote_of s d),
          p',
        )
  ]

  -- `timestamps[index]`
  unfoldable pub time_at : Json F → ℕ → Result Raised (Json F)
  time_at (array a) index = at_index index (elements a)
  time_at _ index = err type_error

  unfoldable pub candle_at : String → Json F → Json F → ℕ → Result Raised (Ohlcv F)
  candle_at normalized timestamps values index =
      and_then (array_number values "open" index) λ open_price.
        and_then (array_number values "high" index) λ high.
          and_then (array_number values "low" index) λ low.
            and_then (array_number values "close" index) λ close.
              and_then (array_number values "volume" index) λ volume.
                and_then (time_at timestamps index) λ time.
                  and_then (timestamp_of time) λ timestamp. ok (record {
                    symbol = normalized;
                    open_price = open_price;
                    high = high;
                    low = low;
                    close = close;
                    volume = volume;
                    timestamp = timestamp;
                    interval = "1m";
                  })

  -- `timestamps` and `values`
  unfoldable pub series_of : Json F → Result Raised (Json F × Json F)
  series_of payload = and_then (at_key "chart" payload) λ chart.
      and_then (at_key "result" chart) λ results. and_then (at_zero results) λ result.
        and_then (at_key "timestamp" result) λ timestamps.
          and_then (at_key "indicators" result) λ indicators.
            and_then (at_key "quote" indicators)
              λ quotes. and_then (at_zero quotes) λ values. ok (timestamps, values)

  abbrev pub latest_candle : String → Json F × Json F → Result Raised (Ohlcv F)
  latest_candle normalized (timestamps, values) =
      and_then (latest_complete_index timestamps values) (candle_at normalized timestamps values)

  unfoldable pub candle_of : String → Json F → Result Raised (Ohlcv F)
  candle_of normalized payload = and_then (series_of payload) (latest_candle normalized)

  unfoldable pub get_ohlcv : String → Call C (Ohlcv F)
  get_ohlcv symbol p = elim (symbol_of symbol) [
    | err e ↦ (err e, p)
    | ok s ↦
        let (payload, p') =
          get_json (String.◌++◌ "/v8/finance/chart/" (w.url_quote s))
            (("range", "1d") ∷ ("interval", "1m") ∷ []) p in
        (
          and_then payload λ d.
              parsed (String.◌++◌ "Yahoo Finance returned invalid OHLCV data for " s)
                (candle_of s d),
          p',
        )
  ]
