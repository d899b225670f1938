-- ===== src/Schema/Orders.antt =====
-- infrastructure/database/metadata.py: the tables orders, executions, positions, pnl,
-- broker_health, manual_broker_exits, reconciliation_states.
use pentagon5_foundation.Prelude.{[], ◌∷◌}
use pentagon5_foundation.Schema.{
  Table, utc_timestamp, uuid_type, money, price, quantity, json_type, string, text, column, id,
  timestamps, not_null, references, default, now, literal, cascade, set_null, restrict,
  unique_constraint, check_constraint, state_check,
}

abbrev pub orders : Table
orders = record {
  schema = "trading";
  name = "orders";
  columns =
      (id
        ∷ (not_null
            (references "workspace" "workspaces" "id" restrict (column "workspace_id" uuid_type)))
        ∷ (not_null
            (references "market" "instruments" "id" restrict (column "instrument_id" uuid_type)))
        ∷ (not_null (column "client_id" (string 100)))
        ∷ (not_null (column "idempotency_key" (string 200)))
        ∷ (column "broker_order_id" (string 160))
        ∷ (not_null (column "side" (string 8)))
        ∷ (not_null (column "order_type" (string 24)))
        ∷ (not_null (column "status" (string 24)))
        ∷ (not_null (column "quantity" quantity))
        ∷ (column "limit_price" price)
        ∷ (column "stop_price" price)
        ∷ (default (literal "day") (not_null (column "time_in_force" (string 16))))
        ∷ (column "submitted_at" utc_timestamp)
        ∷ (column "cancelled_at" utc_timestamp)
        ∷ timestamps);
  constraints =
      unique_constraint ("workspace_id" ∷ "client_id" ∷ "idempotency_key" ∷ [])
        "uq_order_idempotency"
      ∷ state_check "side" ("buy" ∷ "sell" ∷ []) "side"
      ∷ state_check "order_type" ("market" ∷ "limit" ∷ "stop" ∷ "stop_limit" ∷ []) "order_type"
      ∷ state_check "status"
          ("pending" ∷ "submitted" ∷ "partially_filled" ∷ "filled" ∷ "cancelled" ∷ "rejected" ∷ [])
          "status"
      ∷ check_constraint "quantity > 0" "positive_quantity"
      ∷ check_constraint "limit_price IS NULL OR limit_price > 0" "positive_limit_price"
      ∷ check_constraint "stop_price IS NULL OR stop_price > 0" "positive_stop_price"
      ∷ [];
}

abbrev pub executions : Table
executions = record {
  schema = "trading";
  name = "executions";
  columns =
      (id
        ∷ (not_null (references "trading" "orders" "id" restrict (column "order_id" uuid_type)))
        ∷ (not_null (column "broker_execution_id" (string 160)))
        ∷ (not_null (column "quantity" quantity))
        ∷ (not_null (column "price" price))
        ∷ (default (literal "0") (not_null (column "commission" money)))
        ∷ (not_null (column "executed_at" utc_timestamp))
        ∷ (default now (not_null (column "created_at" utc_timestamp)))
        ∷ []);
  constraints =
      unique_constraint ("order_id" ∷ "broker_execution_id" ∷ []) "uq_execution_broker"
      ∷ check_constraint "quantity > 0" "positive_quantity"
      ∷ check_constraint "price > 0" "positive_price"
      ∷ check_constraint "commission >= 0" "commission_nonnegative"
      ∷ [];
}

abbrev pub positions : Table
positions = record {
  schema = "trading";
  name = "positions";
  columns =
      (id
        ∷ (not_null
            (references "workspace" "workspaces" "id" restrict (column "workspace_id" uuid_type)))
        ∷ (not_null
            (references "market" "instruments" "id" restrict (column "instrument_id" uuid_type)))
        ∷ (not_null (column "quantity" quantity))
        ∷ (not_null (column "average_price" price))
        ∷ (column "market_price" price)
        ∷ (not_null (column "as_of" utc_timestamp))
        ∷ timestamps);
  constraints =
      unique_constraint ("workspace_id" ∷ "instrument_id" ∷ []) "uq_position_workspace_instrument"
      ∷ check_constraint "average_price >= 0" "average_price_nonnegative"
      ∷ check_constraint "market_price IS NULL OR market_price >= 0" "market_price_nonnegative"
      ∷ [];
}

abbrev pub pnl : Table
pnl = record {
  schema = "trading";
  name = "pnl";
  columns =
      (id
        ∷ (not_null
            (references "workspace" "workspaces" "id" cascade (column "workspace_id" uuid_type)))
        ∷ (references "market" "instruments" "id" set_null (column "instrument_id" uuid_type))
        ∷ (default (literal "0") (not_null (column "realized" money)))
        ∷ (default (literal "0") (not_null (column "unrealized" money)))
        ∷ (not_null (column "currency" (string 3)))
        ∷ (not_null (column "as_of" utc_timestamp))
        ∷ (default now (not_null (column "created_at" utc_timestamp)))
        ∷ []);
  constraints =
      unique_constraint ("workspace_id" ∷ "instrument_id" ∷ "as_of" ∷ []) "uq_pnl_snapshot" ∷ [];
}

abbrev pub broker_health : Table
broker_health = record {
  schema = "trading";
  name = "broker_health";
  columns =
      (id
        ∷ (not_null
            (references "workspace" "workspaces" "id" cascade (column "workspace_id" uuid_type)))
        ∷ (not_null (column "broker_name" (string 100)))
        ∷ (not_null (column "status" (string 24)))
        ∷ (column "last_heartbeat_at" utc_timestamp)
        ∷ (default now (not_null (column "observed_at" utc_timestamp)))
        ∷ (default (literal "{}") (not_null (column "details" json_type)))
        ∷ []);
  constraints =
      state_check "status" ("healthy" ∷ "degraded" ∷ "down" ∷ "unknown" ∷ []) "status" ∷ [];
}

abbrev pub manual_broker_exits : Table
manual_broker_exits = record {
  schema = "trading";
  name = "manual_broker_exits";
  columns =
      (id
        ∷ (not_null
            (references "workspace" "workspaces" "id" restrict (column "workspace_id" uuid_type)))
        ∷ (not_null
            (references "market" "instruments" "id" restrict (column "instrument_id" uuid_type)))
        ∷ (not_null
            (references "identity" "users" "id" restrict (column "reported_by_user_id" uuid_type)))
        ∷ (not_null (column "broker_reference" (string 160)))
        ∷ (not_null (column "side" (string 8)))
        ∷ (not_null (column "quantity" quantity))
        ∷ (not_null (column "price" price))
        ∷ (not_null (column "executed_at" utc_timestamp))
        ∷ (not_null (column "reason" text))
        ∷ (default now (not_null (column "created_at" utc_timestamp)))
        ∷ []);
  constraints =
      state_check "side" ("buy" ∷ "sell" ∷ []) "side"
      ∷ check_constraint "quantity > 0" "positive_quantity"
      ∷ check_constraint "price > 0" "positive_price"
      ∷ unique_constraint ("workspace_id" ∷ "broker_reference" ∷ []) "uq_manual_exit_reference"
      ∷ [];
}

abbrev pub reconciliation_states : Table
reconciliation_states = record {
  schema = "trading";
  name = "reconciliation_states";
  columns =
      (id
        ∷ (not_null
            (references "workspace" "workspaces" "id" cascade (column "workspace_id" uuid_type)))
        ∷ (references "trading" "manual_broker_exits" "id" set_null
            (column "manual_broker_exit_id" uuid_type))
        ∷ (not_null (column "outcome" (string 24)))
        ∷ (default (literal "{}") (not_null (column "differences" json_type)))
        ∷ (column "notes" text)
        ∷ (not_null (
            references "identity" "users" "id" restrict (column "reconciled_by_user_id" uuid_type)))
        ∷ (default now (not_null (column "reconciled_at" utc_timestamp)))
        ∷ []);
  constraints =
      state_check "outcome" ("matched" ∷ "adjusted" ∷ "unresolved" ∷ "ignored" ∷ []) "outcome" ∷ [];
}
