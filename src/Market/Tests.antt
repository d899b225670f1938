-- ===== src/Market/Tests.antt =====
-- The provider of market data on small documents.
use pentagon5_foundation.Prelude.{ℕ, refl, none, [], ok}
use pentagon5_foundation.Prelude.Json.{
  Json, Members, end, member, null, number, array, object, nil, cons, get, elements,
}
use pentagon5_foundation.Strategy.Models.{Ohlcv}
use pentagon5_foundation.Market.Yahoo.{
  Provider, Web, connect, symbol_of, payload_of, get_json, at_key, at_zero, float_of, number_at,
  timestamp_of, array_number, latest_complete_index, quote_of, get_quote, time_at, candle_at,
  series_of, candle_of,
}
use pentagon5_foundation.Market.Yahoo.Series.{latest_complete, present, all_present}
use pentagon5_foundation.Market.Yahoo.Candles.{IsLatest, candle_of-IsLatest}

abbrev one_item : Json ℕ → Json ℕ
one_item v = array (cons v nil)

-- Two rows, of which the later one has no value.
abbrev column : Json ℕ
column = array (cons (number 5) (cons null nil))

abbrev columns : Members ℕ
columns = member "open" column (
    member "high" column (member "low" column (member "close" column (member "volume" column end))))

abbrev document : Json ℕ
document = object (
    member "chart"
      (object (
        member "result"
          (one_item (
            object (
              member "timestamp" (array (cons (number 7) (cons (number 8) nil))) (
                member "indicators" (object (member "quote" (one_item (object columns)) end))
                  end))))
          end))
      end)

abbrev web : Web ℕ ℕ
web = record {
  new_client = 0;
  request = λ c path params. ok document;
  to_float = λ n. ok n;
  from_timestamp = λ n. ok n;
  strip = λ s. s;
  upper = λ s. s;
  url_quote = λ s. s;
}

abbrev candle : Ohlcv ℕ
candle = record {
  symbol = "S";
  open_price = 5;
  high = 5;
  low = 5;
  close = 5;
  volume = 5;
  timestamp = 7;
  interval = "1m";
}

unfoldable running : ℕ
unfolding connect symbol_of payload_of get_json at_key at_zero float_of number_at timestamp_of
    array_number latest_complete_index quote_of get_quote time_at candle_at series_of candle_of
    latest_complete present all_present get elements
running = 0

candle_of-IsLatest_example : IsLatest web "S" document candle
unfolding running
candle_of-IsLatest_example = candle_of-IsLatest web "S" document refl

abbrev closed : Provider ℕ
closed = record { client = none; subscriptions = [] }
