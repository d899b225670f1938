-- ===== src/Auth/Config/Tests.antt =====
-- The settings loaded from a small environment.
use pentagon5_foundation.Prelude.{
  ℕ, String, refl, false, none, some, List, [], ◌∷◌, ok, err, leb, str_eq, if◌then◌else◌, keep,
  one_of,
}
use pentagon5_foundation.Prelude.Dict.{Dict, lookup}
use pentagon5_foundation.Prelude.Int.{pos}
use pentagon5_foundation.Runtime.Config.{
  Reading, Url, other_error, keys, unknown_keys, secret_text, secret_value, bounded_number,
  is_exact_origin, origins_of, parsed_origins, all_exact, load_runtime_settings,
}
use pentagon5_foundation.Auth.Config.{
  AuthReading, Settings, provider_urls_valid, is_custom_uri, positive_int, decoded_key,
  settings_with, load_auth_settings,
}
use pentagon5_foundation.Auth.Config.Loaded.{IsAuthLoaded, load_auth_settings-IsAuthLoaded}

abbrev url_of : String → Url
url_of s = record {
  scheme = if str_eq s "db" then "postgresql" else if str_eq s "app" then "pentagon5" else "https";
  netloc = "host";
  path = "";
  params = "";
  query = "";
  fragment = "";
}

abbrev reading : Reading ℕ
reading = record {
  is_file = λ f. false;
  read_text = λ f. err other_error;
  urlparse = λ s. ok (url_of s);
  upper = λ s. s;
  lower = λ s. s;
  strip = λ s. s;
  rstrip_slash = λ s. s;
  split_comma = λ s. s ∷ [];
  sorted = λ ss. ss;
  join_comma = λ ss. "";
  without_newline = λ s. s;
  parse_float = λ s. if str_eq s "15" then some 15 else some 1048576;
  of_ℕ = λ n. n;
  le = leb;
  truncate = λ n. n;
}

abbrev key : List ℕ
key =
    7 ∷ 7 ∷ 7 ∷ 7 ∷ 7 ∷ 7 ∷ 7 ∷ 7 ∷ 7 ∷ 7 ∷ 7 ∷ 7 ∷ 7 ∷ 7 ∷ 7 ∷ 7 ∷ 7 ∷ 7 ∷ 7 ∷ 7 ∷ 7 ∷ 7 ∷ 7 ∷ 7
    ∷ 7 ∷ 7 ∷ 7 ∷ 7 ∷ 7 ∷ 7 ∷ 7 ∷ 7 ∷ []

abbrev auth_reading : AuthReading ℕ ℕ
auth_reading = record {
  runtime = reading;
  parse_int = λ s. if str_eq s "16384" then some (pos 16384) else some (pos 4);
  b64decode = λ s. some key;
}

abbrev environment : Dict String
environment =
    ("P5_DATABASE_URL", "db")
    ∷ ("P5_SERVICE_NAME", "authentication")
    ∷ ("P5_OIDC_ISSUER", "issuer")
    ∷ ("P5_OIDC_CLIENT_ID", "client")
    ∷ ("P5_OIDC_CLIENT_SECRET", "secret")
    ∷ ("P5_OIDC_REDIRECT_URI", "redirect")
    ∷ ("P5_DESKTOP_CALLBACK_URI", "app")
    ∷ ("P5_SESSION_HMAC_KEY", "key")
    ∷ []

abbrev loaded : Settings ℕ ℕ
loaded = record {
  runtime = record {
    service_name = "authentication";
    environment = "production";
    database_url = "db";
    log_level = "INFO";
    otlp_endpoint = none;
    cors_origins = [];
    max_body_bytes = 1048576;
    request_timeout_seconds = 15;
  };
  issuer = "issuer";
  client_id = "client";
  client_secret = "secret";
  redirect_uri = "redirect";
  hmac_key = key;
  desktop_callback_uri = "app";
  session_ttl_seconds = 4;
  flow_ttl_seconds = 4;
  login_grant_ttl_seconds = 4;
  ws_ticket_ttl_seconds = 4;
  ws_max_frame_bytes = 16384;
  ws_max_subscriptions = 4;
  web_cookie_mode = false;
}

load_auth_settings-IsAuthLoaded_example : IsAuthLoaded auth_reading environment loaded
unfolding load_auth_settings load_runtime_settings keys unknown_keys keep one_of secret_text
    secret_value bounded_number is_exact_origin origins_of parsed_origins all_exact
    provider_urls_valid is_custom_uri positive_int decoded_key settings_with lookup
load_auth_settings-IsAuthLoaded_example =
    load_auth_settings-IsAuthLoaded auth_reading environment refl
