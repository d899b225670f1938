-- ===== src/Schema/V0001/Personalization.antt =====
-- infrastructure/database/metadata_0001.py: the tables themes, background_assets, sound_assets,
-- user_preferences, sound_preferences, notification_preferences, notification_events,
-- dashboard_layouts.
use pentagon5_foundation.Prelude.{[], ◌∷◌}
use pentagon5_foundation.Schema.{
  Table, utc_timestamp, uuid_type, json_type, string, numeric, text, boolean, column, id,
  timestamps, not_null, unique, primary_key, references, default, now, literal, cascade, set_null,
  unique_constraint, check_constraint, state_check,
}

abbrev pub themes : Table
themes = record {
  schema = "personalization";
  name = "themes";
  columns =
      (id
        ∷ (unique (not_null (column "name" (string 80))))
        ∷ (not_null (column "definition" json_type))
        ∷ (default (literal "false") (not_null (column "is_system" boolean)))
        ∷ timestamps);
  constraints = [];
}

abbrev pub background_assets : Table
background_assets = record {
  schema = "personalization";
  name = "background_assets";
  columns =
      (id
        ∷ (unique (not_null (column "name" (string 80))))
        ∷ (not_null (column "asset_uri" text))
        ∷ (default (literal "false") (not_null (column "is_system" boolean)))
        ∷ timestamps);
  constraints = [];
}

abbrev pub sound_assets : Table
sound_assets = record {
  schema = "personalization";
  name = "sound_assets";
  columns =
      (id
        ∷ (unique (not_null (column "name" (string 80))))
        ∷ (not_null (column "asset_uri" text))
        ∷ (default (literal "false") (not_null (column "is_system" boolean)))
        ∷ timestamps);
  constraints = [];
}

abbrev pub user_preferences : Table
user_preferences = record {
  schema = "personalization";
  name = "user_preferences";
  columns =
      ((primary_key (references "identity" "users" "id" cascade (column "user_id" uuid_type)))
        ∷ (references "personalization" "themes" "id" set_null (column "theme_id" uuid_type))
        ∷ (references "personalization" "background_assets" "id" set_null
            (column "background_id" uuid_type))
        ∷ (references "personalization" "sound_assets" "id" set_null (column "sound_id" uuid_type))
        ∷ (default (literal "en-US") (not_null (column "locale" (string 16))))
        ∷ (default (literal "UTC") (not_null (column "timezone" (string 64))))
        ∷ (default (literal "{}") (not_null (column "settings" json_type)))
        ∷ timestamps);
  constraints = [];
}

abbrev pub sound_preferences : Table
sound_preferences = record {
  schema = "personalization";
  name = "sound_preferences";
  columns =
      (id
        ∷ (not_null (references "identity" "users" "id" cascade (column "user_id" uuid_type)))
        ∷ (not_null (column "event_type" (string 80)))
        ∷ (references "personalization" "sound_assets" "id" set_null
            (column "sound_asset_id" uuid_type))
        ∷ (default (literal "true") (not_null (column "enabled" boolean)))
        ∷ (default (literal "1.000") (not_null (column "volume" (numeric 4 3))))
        ∷ timestamps);
  constraints =
      unique_constraint ("user_id" ∷ "event_type" ∷ []) "uq_sound_preference"
      ∷ check_constraint "volume >= 0 AND volume <= 1" "volume_range"
      ∷ [];
}

abbrev pub notification_preferences : Table
notification_preferences = record {
  schema = "personalization";
  name = "notification_preferences";
  columns =
      (id
        ∷ (not_null (references "identity" "users" "id" cascade (column "user_id" uuid_type)))
        ∷ (not_null (column "channel" (string 24)))
        ∷ (not_null (column "event_type" (string 80)))
        ∷ (default (literal "true") (not_null (column "enabled" boolean)))
        ∷ timestamps);
  constraints =
      unique_constraint ("user_id" ∷ "channel" ∷ "event_type" ∷ []) "uq_notification_preference"
      ∷ state_check "channel" ("in_app" ∷ "email" ∷ "push" ∷ "sms" ∷ []) "channel"
      ∷ [];
}

abbrev pub notification_events : Table
notification_events = record {
  schema = "personalization";
  name = "notification_events";
  columns =
      (id
        ∷ (not_null (references "identity" "users" "id" cascade (column "user_id" uuid_type)))
        ∷ (not_null (column "event_type" (string 80)))
        ∷ (not_null (column "payload" json_type))
        ∷ (default now (not_null (column "occurred_at" utc_timestamp)))
        ∷ (column "read_at" utc_timestamp)
        ∷ []);
  constraints = [];
}

abbrev pub dashboard_layouts : Table
dashboard_layouts = record {
  schema = "personalization";
  name = "dashboard_layouts";
  columns =
      (id
        ∷ (not_null (references "identity" "users" "id" cascade (column "user_id" uuid_type)))
        ∷ (not_null (column "name" (string 100)))
        ∷ (not_null (column "layout" json_type))
        ∷ (default (literal "false") (not_null (column "is_default" boolean)))
        ∷ timestamps);
  constraints = unique_constraint ("user_id" ∷ "name" ∷ []) "uq_dashboard_user_name" ∷ [];
}
