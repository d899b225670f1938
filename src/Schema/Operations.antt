-- ===== src/Schema/Operations.antt =====
-- infrastructure/database/metadata.py: the tables server_connections, system_health_events.
use pentagon5_foundation.Prelude.{[], ◌∷◌}
use pentagon5_foundation.Schema.{
  Table, utc_timestamp, uuid_type, json_type, string, integer, column, id, timestamps, not_null,
  references, default, now, literal, cascade, unique_constraint, check_constraint, state_check,
}

abbrev pub server_connections : Table
server_connections = record {
  schema = "operations";
  name = "server_connections";
  columns =
      (id
        ∷ (not_null
            (references "workspace" "workspaces" "id" cascade (column "workspace_id" uuid_type)))
        ∷ (not_null (column "connection_type" (string 40)))
        ∷ (not_null (column "endpoint_label" (string 120)))
        ∷ (not_null (column "status" (string 24)))
        ∷ (column "last_connected_at" utc_timestamp)
        ∷ (column "last_disconnected_at" utc_timestamp)
        ∷ (default (literal "{}") (not_null (column "details" json_type)))
        ∷ timestamps);
  constraints =
      state_check "status" ("unknown" ∷ "connected" ∷ "degraded" ∷ "disconnected" ∷ []) "status"
      ∷ unique_constraint ("workspace_id" ∷ "connection_type" ∷ "endpoint_label" ∷ [])
          "uq_server_connection"
      ∷ [];
}

abbrev pub system_health_events : Table
system_health_events = record {
  schema = "operations";
  name = "system_health_events";
  columns =
      (id
        ∷ (references "operations" "server_connections" "id" cascade
            (column "server_connection_id" uuid_type))
        ∷ (not_null (column "component" (string 120)))
        ∷ (not_null (column "status" (string 24)))
        ∷ (column "latency_ms" integer)
        ∷ (default (literal "{}") (not_null (column "details" json_type)))
        ∷ (default now (not_null (column "observed_at" utc_timestamp)))
        ∷ []);
  constraints =
      state_check "status" ("healthy" ∷ "degraded" ∷ "unhealthy" ∷ "unknown" ∷ []) "status"
      ∷ check_constraint "latency_ms IS NULL OR latency_ms >= 0" "latency_nonnegative"
      ∷ [];
}
