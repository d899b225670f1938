-- ===== src/Market/Yahoo/Errors.antt =====
-- src/marketdata/provider.py: what the methods of `YahooFinanceMarketDataProvider` raise.
use Prim.Native.String
use pentagon5_foundation.Prelude.{
  String, ◌≡◌, Bool, true, false, one_of, eq_refl, ok, some, List, [], ◌∷◌, Result, err, and_then,
  is_none, ◌⊎◌, inl, inr, arith, Result-cases, Option-cases,
}
use pentagon5_foundation.Prelude.Json.{Json, object}
use pentagon5_foundation.Market.Yahoo.{
  Raised, overflow_error, Error, RequestError, http_error, invalid_json, other_failure,
  python_error, provider_error, other_error, value_error, Provider, Web, parsed, connect, symbol_of,
  payload_of, get_json, candle_of, get_ohlcv,
}

-- What may leave a method for a valid symbol: the provider's error with one of three messages, the
-- error of a number out of range, or an exception of the request that is not one of `httpx` or of the
-- parser; no error of a document's shape.
abbrev pub is_reported : String → Error → Bool
is_reported invalid (provider_error m) =
    one_of m (
      "Yahoo Finance request failed" ∷ "Yahoo Finance returned a malformed response" ∷ invalid ∷ [])
is_reported invalid (python_error overflow_error) = true
is_reported invalid (python_error _) = false
is_reported invalid other_error = true

-- The error for an empty symbol, with nothing done, or one that is reported, with the client connected.
abbrev pub RaisesWell : {C : Type 0} → String → Provider C → Error → Provider C → Type 0
RaisesWell invalid p e p' =
    ((e ≡ python_error (value_error "symbol must not be empty")) × (p' ≡ p))
    ⊎ ((is_reported invalid e ≡ true) × (is_none p'.client ≡ false))

module _ {F C : Type 0} (w : Web F C) where
  connect_client : (p : Provider C) → (c : C) × ((connect w p).1.client ≡ some c)
  unfolding connect
  connect_client p = elim (Option-cases p.client) [
    | inl n ↦ (w.new_client, ground (arith, n))
    | inr (c, e) ↦ (c, ground (arith, e))
  ]

  payload_error :
      (invalid : String) (r : Result RequestError (Json F)) {e : Error}
      → payload_of w r ≡ err e
      → is_reported invalid e ≡ true
  unfolding payload_of one_of
  payload_error invalid (err http_error) h = ground (arith, h)
  payload_error invalid (err invalid_json) h = ground (arith, h)
  payload_error invalid (err other_failure) h = ground (arith, h)
  payload_error invalid (ok (object d)) h = ground (arith, h)
  payload_error invalid (ok _) h = ground (arith, h)

  parsed_error :
      {A : Type 0} (message : String) (r : Result Raised A) {e : Error}
      → parsed message r ≡ err e
      → is_reported message e ≡ true
  unfolding one_of
  parsed_error message r h = ground (arith, h, eq_refl message)

  symbol_error :
      (symbol : String) {e : Error}
      → symbol_of w symbol ≡ err e
      → e ≡ python_error (value_error "symbol must not be empty")
  unfolding symbol_of
  symbol_error symbol h = ground arith

  symbol_same :
      (symbol : String) {s : String} → symbol_of w symbol ≡ ok s → s ≡ w.upper (w.strip symbol)
  unfolding symbol_of
  symbol_same symbol h = ground (arith, h)

  -- What the fetch and the parsing raise once the symbol is valid.
  fetched_error :
      {A : Type 0} (path : String) (params : List (String × String)) (message : String)
      (read : Json F → Result Raised A) (p : Provider C) {e : Error}
      → and_then (get_json w path params p).0 (λ d. parsed message (read d)) ≡ err e
      → (is_reported message e ≡ true) × (is_none (get_json w path params p).1.client ≡ false)
  unfolding get_json
  fetched_error path params message read p {e = e} h =
      let (c, k) = connect_client p in
      elim (Result-cases (payload_of w (w.request c path params))) [
        | inl (d, r) ↦
            (parsed_error message (read d) {e = e} (ground (arith, h, k, r)), ground (arith, k))
        | inr (x, r) ↦ (
          payload_error message (w.request c path params) {e = e} (ground (arith, h, k, r)),
          ground (arith, k),
        )
      ]

  -- The errors of `get_ohlcv` are of the same kinds.
  pub get_ohlcv-RaisesWell :
      (symbol : String) (p : Provider C) {e : Error}
      → (get_ohlcv w symbol p).0 ≡ err e
      → RaisesWell
          (String.◌++◌ "Yahoo Finance returned invalid OHLCV data for " (w.upper (w.strip symbol)))
          p
          e
          (get_ohlcv w symbol p).1
  unfolding get_ohlcv
  get_ohlcv-RaisesWell symbol p {e = e} h = elim (Result-cases (symbol_of w symbol)) [
    | inr (x, r) ↦ ground (arith, h, r, symbol_error symbol {e = e})
    | inl (s, r) ↦
        let (own, open_client) =
          fetched_error (String.◌++◌ "/v8/finance/chart/" (w.url_quote s))
            (("range", "1d") ∷ ("interval", "1m") ∷ [])
            (String.◌++◌ "Yahoo Finance returned invalid OHLCV data for " s) (candle_of w s) p
            {e = e} (ground (arith, h, r)) in
        inr (ground (arith, own, symbol_same symbol r), ground (arith, r, open_client))
  ]
