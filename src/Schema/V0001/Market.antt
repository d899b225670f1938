-- ===== src/Schema/V0001/Market.antt =====
-- infrastructure/database/metadata_0001.py: the tables instruments, quotes, signals,
-- market_feed_health_events.
use pentagon5_foundation.Prelude.{[], ◌∷◌}
use pentagon5_foundation.Schema.{
  Table, utc_timestamp, uuid_type, price, quantity, json_type, string, numeric, boolean, column, id,
  timestamps, not_null, references, default, now, literal, cascade, unique_constraint,
  check_constraint, state_check,
}

abbrev pub instruments : Table
instruments = record {
  schema = "market";
  name = "instruments";
  columns =
      (id
        ∷ (not_null (column "symbol" (string 40)))
        ∷ (not_null (column "venue" (string 40)))
        ∷ (not_null (column "asset_class" (string 32)))
        ∷ (not_null (column "currency" (string 3)))
        ∷ (not_null (column "price_increment" price))
        ∷ (not_null (column "quantity_increment" quantity))
        ∷ (default (literal "true") (not_null (column "active" boolean)))
        ∷ timestamps);
  constraints =
      unique_constraint ("symbol" ∷ "venue" ∷ []) "uq_instrument_symbol_venue"
      ∷ check_constraint "price_increment > 0" "positive_price_increment"
      ∷ check_constraint "quantity_increment > 0" "positive_quantity_increment"
      ∷ [];
}

abbrev pub quotes : Table
quotes = record {
  schema = "market";
  name = "quotes";
  columns =
      (id
        ∷ (not_null
            (references "market" "instruments" "id" cascade (column "instrument_id" uuid_type)))
        ∷ (column "bid_price" price)
        ∷ (column "ask_price" price)
        ∷ (column "last_price" price)
        ∷ (column "bid_quantity" quantity)
        ∷ (column "ask_quantity" quantity)
        ∷ (not_null (column "source" (string 80)))
        ∷ (not_null (column "observed_at" utc_timestamp))
        ∷ (default now (not_null (column "received_at" utc_timestamp)))
        ∷ []);
  constraints =
      check_constraint "bid_price IS NULL OR bid_price >= 0" "bid_nonnegative"
      ∷ check_constraint "ask_price IS NULL OR ask_price >= 0" "ask_nonnegative"
      ∷ check_constraint "last_price IS NULL OR last_price >= 0" "last_nonnegative"
      ∷ [];
}

abbrev pub signals : Table
signals = record {
  schema = "market";
  name = "signals";
  columns =
      (id
        ∷ (not_null
            (references "workspace" "workspaces" "id" cascade (column "workspace_id" uuid_type)))
        ∷ (not_null
            (references "market" "instruments" "id" cascade (column "instrument_id" uuid_type)))
        ∷ (not_null (column "signal_type" (string 40)))
        ∷ (not_null (column "strength" (numeric 10 6)))
        ∷ (default (literal "{}") (not_null (column "payload" json_type)))
        ∷ (not_null (column "generated_at" utc_timestamp))
        ∷ (column "expires_at" utc_timestamp)
        ∷ []);
  constraints = check_constraint "strength >= -1 AND strength <= 1" "strength_range" ∷ [];
}

abbrev pub market_feed_health_events : Table
market_feed_health_events = record {
  schema = "market";
  name = "market_feed_health_events";
  columns =
      (id
        ∷ (not_null
            (references "workspace" "workspaces" "id" cascade (column "workspace_id" uuid_type)))
        ∷ (not_null (column "feed_name" (string 100)))
        ∷ (not_null (column "status" (string 24)))
        ∷ (column "last_message_at" utc_timestamp)
        ∷ (default now (not_null (column "observed_at" utc_timestamp)))
        ∷ (default (literal "{}") (not_null (column "details" json_type)))
        ∷ []);
  constraints =
      state_check "status" ("healthy" ∷ "degraded" ∷ "down" ∷ "unknown" ∷ []) "status" ∷ [];
}
