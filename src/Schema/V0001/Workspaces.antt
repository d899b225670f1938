-- ===== src/Schema/V0001/Workspaces.antt =====
-- infrastructure/database/metadata_0001.py: the tables workspaces, workspace_members.
use pentagon5_foundation.Prelude.{[], ◌∷◌}
use pentagon5_foundation.Schema.{
  Table, utc_timestamp, uuid_type, string, column, id, timestamps, not_null, primary_key,
  references, default, now, literal, cascade, restrict, state_check,
}

abbrev pub workspaces : Table
workspaces = record {
  schema = "workspace";
  name = "workspaces";
  columns =
      (id
        ∷ (not_null (column "name" (string 120)))
        ∷ (not_null
            (references "identity" "users" "id" restrict (column "owner_user_id" uuid_type)))
        ∷ (default (literal "active") (not_null (column "status" (string 24))))
        ∷ timestamps);
  constraints = state_check "status" ("active" ∷ "suspended" ∷ "archived" ∷ []) "status" ∷ [];
}

abbrev pub workspace_members : Table
workspace_members = record {
  schema = "workspace";
  name = "workspace_members";
  columns =
      ((primary_key
          (references "workspace" "workspaces" "id" cascade (column "workspace_id" uuid_type)))
        ∷ (primary_key (references "identity" "users" "id" cascade (column "user_id" uuid_type)))
        ∷ (not_null (column "member_role" (string 24)))
        ∷ (default now (not_null (column "created_at" utc_timestamp)))
        ∷ []);
  constraints =
      state_check "member_role" ("owner" ∷ "admin" ∷ "trader" ∷ "viewer" ∷ []) "member_role" ∷ [];
}
