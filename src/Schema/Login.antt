-- ===== src/Schema/Login.antt =====
-- infrastructure/database/metadata.py: the tables oidc_identities, oidc_flows, login_grants,
-- websocket_tickets, session_events.
use pentagon5_foundation.Prelude.{[], ◌∷◌}
use pentagon5_foundation.Schema.{
  Table, utc_timestamp, uuid_type, json_type, string, text, column, id, not_null, unique,
  references, default, now, literal, cascade, unique_constraint, state_check,
}

abbrev pub oidc_identities : Table
oidc_identities = record {
  schema = "identity";
  name = "oidc_identities";
  columns =
      (id
        ∷ (not_null (references "identity" "users" "id" cascade (column "user_id" uuid_type)))
        ∷ (not_null (column "issuer" (string 512)))
        ∷ (not_null (column "subject" (string 512)))
        ∷ (default now (not_null (column "created_at" utc_timestamp)))
        ∷ []);
  constraints =
      unique_constraint ("issuer" ∷ "subject" ∷ []) "uq_oidc_identity_issuer_subject" ∷ [];
}

abbrev pub oidc_flows : Table
oidc_flows = record {
  schema = "identity";
  name = "oidc_flows";
  columns =
      (id
        ∷ (unique (not_null (column "state_fingerprint" (string 64))))
        ∷ (not_null (column "encrypted_payload" text))
        ∷ (not_null (column "redirect_uri" text))
        ∷ (not_null (column "expires_at" utc_timestamp))
        ∷ (default now (not_null (column "created_at" utc_timestamp)))
        ∷ []);
  constraints = [];
}

abbrev pub login_grants : Table
login_grants = record {
  schema = "identity";
  name = "login_grants";
  columns =
      (id
        ∷ (unique (not_null (column "code_fingerprint" (string 64))))
        ∷ (not_null (column "encrypted_payload" text))
        ∷ (not_null (column "expires_at" utc_timestamp))
        ∷ (default now (not_null (column "created_at" utc_timestamp)))
        ∷ []);
  constraints = [];
}

abbrev pub websocket_tickets : Table
websocket_tickets = record {
  schema = "identity";
  name = "websocket_tickets";
  columns =
      (id
        ∷ (unique (not_null (column "ticket_fingerprint" (string 64))))
        ∷ (not_null (references "identity" "sessions" "id" cascade (column "session_id" uuid_type)))
        ∷ (not_null (column "channel" (string 32)))
        ∷ (not_null (column "expires_at" utc_timestamp))
        ∷ (default now (not_null (column "created_at" utc_timestamp)))
        ∷ []);
  constraints = state_check "channel" ("system.health" ∷ "session.events" ∷ []) "channel" ∷ [];
}

abbrev pub session_events : Table
session_events = record {
  schema = "identity";
  name = "session_events";
  columns =
      (id
        ∷ (references "identity" "sessions" "id" cascade (column "session_id" uuid_type))
        ∷ (not_null (references "identity" "users" "id" cascade (column "user_id" uuid_type)))
        ∷ (not_null (column "event_type" (string 80)))
        ∷ (default (literal "{}") (not_null (column "payload" json_type)))
        ∷ (default now (not_null (column "occurred_at" utc_timestamp)))
        ∷ []);
  constraints = [];
}
