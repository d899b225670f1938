-- ===== src/Schema/V0001/Identity.antt =====
-- infrastructure/database/metadata_0001.py: the tables users, roles, permissions, user_roles,
-- role_permissions, devices, sessions.
use pentagon5_foundation.Prelude.{[], ◌∷◌}
use pentagon5_foundation.Schema.{
  Table, utc_timestamp, uuid_type, string, text, column, id, timestamps, not_null, unique,
  primary_key, references, default, now, literal, cascade, set_null, unique_constraint, state_check,
}

abbrev pub users : Table
users = record {
  schema = "identity";
  name = "users";
  columns =
      (id
        ∷ (unique (not_null (column "email" (string 320))))
        ∷ (not_null (column "display_name" (string 120)))
        ∷ (default (literal "active") (not_null (column "status" (string 24))))
        ∷ timestamps);
  constraints = state_check "status" ("active" ∷ "disabled" ∷ "deleted" ∷ []) "status" ∷ [];
}

abbrev pub roles : Table
roles = record {
  schema = "identity";
  name = "roles";
  columns =
      (id
        ∷ (unique (not_null (column "name" (string 80))))
        ∷ (column "description" text)
        ∷ timestamps);
  constraints = [];
}

abbrev pub permissions : Table
permissions = record {
  schema = "identity";
  name = "permissions";
  columns =
      (id
        ∷ (unique (not_null (column "code" (string 120))))
        ∷ (column "description" text)
        ∷ timestamps);
  constraints = [];
}

abbrev pub user_roles : Table
user_roles = record {
  schema = "identity";
  name = "user_roles";
  columns =
      ((primary_key (references "identity" "users" "id" cascade (column "user_id" uuid_type)))
        ∷ (primary_key (references "identity" "roles" "id" cascade (column "role_id" uuid_type)))
        ∷ (default now (not_null (column "created_at" utc_timestamp)))
        ∷ []);
  constraints = [];
}

abbrev pub role_permissions : Table
role_permissions = record {
  schema = "identity";
  name = "role_permissions";
  columns =
      ((primary_key (references "identity" "roles" "id" cascade (column "role_id" uuid_type)))
        ∷ (primary_key
            (references "identity" "permissions" "id" cascade (column "permission_id" uuid_type)))
        ∷ (default now (not_null (column "created_at" utc_timestamp)))
        ∷ []);
  constraints = [];
}

abbrev pub devices : Table
devices = record {
  schema = "identity";
  name = "devices";
  columns =
      (id
        ∷ (not_null (references "identity" "users" "id" cascade (column "user_id" uuid_type)))
        ∷ (not_null (column "device_key" (string 200)))
        ∷ (not_null (column "platform" (string 40)))
        ∷ (column "last_seen_at" utc_timestamp)
        ∷ (column "revoked_at" utc_timestamp)
        ∷ timestamps);
  constraints = unique_constraint ("user_id" ∷ "device_key" ∷ []) "uq_devices_user_device" ∷ [];
}

abbrev pub sessions : Table
sessions = record {
  schema = "identity";
  name = "sessions";
  columns =
      (id
        ∷ (not_null (references "identity" "users" "id" cascade (column "user_id" uuid_type)))
        ∷ (references "identity" "devices" "id" set_null (column "device_id" uuid_type))
        ∷ (unique (not_null (column "token_fingerprint" (string 128))))
        ∷ (not_null (column "expires_at" utc_timestamp))
        ∷ (column "revoked_at" utc_timestamp)
        ∷ (default now (not_null (column "created_at" utc_timestamp)))
        ∷ []);
  constraints = [];
}
