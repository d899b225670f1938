-- ===== src/Market/Yahoo/Candles.antt =====
-- src/marketdata/provider.py: the candle that `get_ohlcv` reads.
use pentagon5_foundation.Prelude.{
  ℕ, String, ◌<◌, ◌≡◌, refl, true, some, List, [], ◌∷◌, Result, ok, and_then, and_then_parts,
  length, arith, ap, ◌∙◌, subst,
}
use pentagon5_foundation.Prelude.Json.{Json, Items, Members, array, object, elements}
use pentagon5_foundation.Strategy.Models.{Ohlcv}
use pentagon5_foundation.Market.Yahoo.Series.{
  complete, none_later, latest_complete, latest_complete_lem,
}
use pentagon5_foundation.Market.Yahoo.{
  Raised, Web, at_key, at_zero, latest_complete_index, candle_at, series_of, latest_candle,
  candle_of,
}

-- A way into a document: a key, or the first item.
pub data Step : Type 0 where
  key : String → Step
  first_item : Step

abbrev pub walk : {F : Type 0} → List Step → Json F → Result Raised (Json F)
walk [] v = ok v
walk (key k ∷ steps) v = and_then (at_key k v) (walk steps)
walk (first_item ∷ steps) v = and_then (at_zero v) (walk steps)

abbrev pub to_result : List Step → List Step
to_result steps = key "chart" ∷ key "result" ∷ first_item ∷ steps

-- The candle at an index of the document's series at which every column has a value, where a later
-- index has not.
pub record IsLatest {F C : Type 0} (w : Web F C) (symbol : String) (d : Json F) (candle : Ohlcv F)
    : Type 0 where
  pub timestamps : Items F
  pub values : Members F
  pub index : ℕ
  pub found_timestamps : walk (to_result (key "timestamp" ∷ [])) d ≡ ok (array timestamps)
  pub found_values :
      walk (to_result (key "indicators" ∷ key "quote" ∷ first_item ∷ [])) d ≡ ok (object values)
  pub inside : index < length (elements timestamps)
  pub is_complete : complete index values ≡ true
  pub latest : none_later index (length (elements timestamps)) values ≡ true
  pub read : candle_at w symbol (array timestamps) (object values) index ≡ ok candle

module _ {F C : Type 0} (w : Web F C) where
  index_series :
      (ts vs : Json F) {i : ℕ}
      → latest_complete_index w ts vs ≡ ok i
      → (a : Items F) × (m : Members F) × (ts ≡ array a)
        × (vs ≡ object m)
        × (latest_complete (length (elements a)) m ≡ some i)
  unfolding latest_complete_index
  index_series (array a) (object m) e = (a, m, refl, refl, ground (arith, e))
  index_series _ _ e = ground (arith, e)

  series_walked :
      (d ts vs : Json F)
      → series_of w d ≡ ok (ts, vs)
      → (walk (to_result (key "timestamp" ∷ [])) d ≡ ok ts)
        × (walk (to_result (key "indicators" ∷ key "quote" ∷ first_item ∷ [])) d ≡ ok vs)
  unfolding series_of
  series_walked d ts vs e = ground (arith, e)

  -- A candle that is read is the latest complete one of the document.
  pub candle_of-IsLatest :
      (symbol : String) (d : Json F) {o : Ohlcv F}
      → candle_of w symbol d ≡ ok o
      → IsLatest w symbol d o
  unfolding candle_of
  candle_of-IsLatest symbol d {o = o} e =
      let ((ts, vs), s, e) = and_then_parts (series_of w d) (latest_candle w symbol) e in
      let (i, l, read) =
        and_then_parts (latest_complete_index w ts vs) (candle_at w symbol ts vs) e in
      let (timestamps, values, is_ts, is_vs, found) = index_series ts vs l in
      let (found_ts, found_vs) = series_walked d ts vs s in
      let (inside, now, later) = latest_complete_lem (length (elements timestamps)) values found in
      record {
        timestamps = timestamps;
        values = values;
        index = i;
        found_timestamps = found_ts ∙ ap ok is_ts;
        found_values = found_vs ∙ ap ok is_vs;
        inside = inside;
        is_complete = now;
        latest = later;
        read =
            subst (λ x. candle_at w symbol x (object values) i ≡ ok o) is_ts
              (subst (λ x. candle_at w symbol ts x i ≡ ok o) is_vs read);
      }
