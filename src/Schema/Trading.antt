-- ===== src/Schema/Trading.antt =====
-- infrastructure/database/metadata.py: the tables trading_modes, mode_transitions,
-- risk_configurations, risk_states.
use pentagon5_foundation.Prelude.{[], ◌∷◌}
use pentagon5_foundation.Schema.{
  Table, utc_timestamp, uuid_type, money, string, text, integer, column, id, not_null, primary_key,
  references, default, now, literal, cascade, restrict, check_constraint, state_check,
}

abbrev pub trading_modes : Table
trading_modes = record {
  schema = "trading";
  name = "trading_modes";
  columns =
      ((primary_key
          (references "workspace" "workspaces" "id" cascade (column "workspace_id" uuid_type)))
        ∷ (default (literal "observation") (not_null (column "mode" (string 24))))
        ∷ (not_null
            (references "identity" "users" "id" restrict (column "changed_by_user_id" uuid_type)))
        ∷ (default now (not_null (column "changed_at" utc_timestamp)))
        ∷ (default (literal "1") (not_null (column "version" integer)))
        ∷ []);
  constraints =
      state_check "mode" ("observation" ∷ "paper" ∷ "small_live" ∷ "live" ∷ "emergency" ∷ []) "mode"
      ∷ check_constraint "version > 0" "positive_version"
      ∷ [];
}

abbrev pub mode_transitions : Table
mode_transitions = record {
  schema = "trading";
  name = "mode_transitions";
  columns =
      (id
        ∷ (not_null
            (references "workspace" "workspaces" "id" cascade (column "workspace_id" uuid_type)))
        ∷ (not_null (column "from_mode" (string 24)))
        ∷ (not_null (column "to_mode" (string 24)))
        ∷ (not_null
            (references "identity" "users" "id" restrict (column "requested_by_user_id" uuid_type)))
        ∷ (not_null (column "reason" text))
        ∷ (default now (not_null (column "transitioned_at" utc_timestamp)))
        ∷ []);
  constraints =
      state_check "from_mode" ("observation" ∷ "paper" ∷ "small_live" ∷ "live" ∷ "emergency" ∷ [])
        "from_mode"
      ∷ state_check "to_mode" ("observation" ∷ "paper" ∷ "small_live" ∷ "live" ∷ "emergency" ∷ [])
          "to_mode"
      ∷ check_constraint "from_mode <> to_mode" "mode_changes"
      ∷ check_constraint
          "\n        (from_mode = 'observation' AND to_mode IN ('paper', 'emergency'))\n        OR (from_mode = 'paper' AND to_mode IN ('observation', 'small_live', 'emergency'))\n        OR (from_mode = 'small_live' AND to_mode IN ('paper', 'live', 'emergency'))\n        OR (from_mode = 'live' AND to_mode IN ('small_live', 'emergency'))\n        OR (from_mode = 'emergency' AND to_mode = 'observation')\n        "
          "allowed_transition"
      ∷ [];
}

abbrev pub risk_configurations : Table
risk_configurations = record {
  schema = "trading";
  name = "risk_configurations";
  columns =
      (id
        ∷ (not_null
            (references "workspace" "workspaces" "id" cascade (column "workspace_id" uuid_type)))
        ∷ (not_null (column "max_order_notional" money))
        ∷ (not_null (column "max_position_notional" money))
        ∷ (not_null (column "daily_loss_limit" money))
        ∷ (not_null (column "max_open_orders" integer))
        ∷ (not_null (column "base_currency" (string 3)))
        ∷ (default now (not_null (column "effective_from" utc_timestamp)))
        ∷ (column "effective_to" utc_timestamp)
        ∷ (not_null
            (references "identity" "users" "id" restrict (column "created_by_user_id" uuid_type)))
        ∷ (default now (not_null (column "created_at" utc_timestamp)))
        ∷ []);
  constraints =
      check_constraint "max_order_notional > 0" "positive_order_limit"
      ∷ check_constraint "max_position_notional > 0" "positive_position_limit"
      ∷ check_constraint "daily_loss_limit > 0" "positive_loss_limit"
      ∷ check_constraint "max_open_orders > 0" "positive_open_orders"
      ∷ check_constraint "effective_to IS NULL OR effective_to > effective_from" "effective_window"
      ∷ [];
}

abbrev pub risk_states : Table
risk_states = record {
  schema = "trading";
  name = "risk_states";
  columns =
      ((primary_key
          (references "workspace" "workspaces" "id" cascade (column "workspace_id" uuid_type)))
        ∷ (not_null (
            references "trading" "risk_configurations" "id" restrict
              (column "risk_configuration_id" uuid_type)))
        ∷ (not_null (column "state" (string 24)))
        ∷ (default (literal "0") (not_null (column "daily_realized_pnl" money)))
        ∷ (default (literal "0") (not_null (column "open_order_count" integer)))
        ∷ (column "reason" text)
        ∷ (default now (not_null (column "evaluated_at" utc_timestamp)))
        ∷ []);
  constraints =
      state_check "state" ("normal" ∷ "warning" ∷ "blocked" ∷ "emergency" ∷ []) "state"
      ∷ check_constraint "open_order_count >= 0" "open_orders_nonnegative"
      ∷ [];
}
