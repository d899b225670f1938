-- ===== src/Schema/V0001/Audit.antt =====
-- infrastructure/database/metadata_0001.py: the tables audit_events.
use pentagon5_foundation.Prelude.{[], ◌∷◌}
use pentagon5_foundation.Schema.{
  Table, utc_timestamp, uuid_type, json_type, string, column, id, not_null, references, default,
  now, set_null,
}

abbrev pub audit_events : Table
audit_events = record {
  schema = "audit";
  name = "events";
  columns =
      (id
        ∷ (references "workspace" "workspaces" "id" set_null (column "workspace_id" uuid_type))
        ∷ (references "identity" "users" "id" set_null (column "actor_user_id" uuid_type))
        ∷ (not_null (column "event_type" (string 120)))
        ∷ (not_null (column "aggregate_type" (string 80)))
        ∷ (column "aggregate_id" uuid_type)
        ∷ (not_null (column "payload" json_type))
        ∷ (default now (not_null (column "occurred_at" utc_timestamp)))
        ∷ []);
  constraints = [];
}
