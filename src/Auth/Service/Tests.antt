-- ===== src/Auth/Service/Tests.antt =====
-- The service on small tables, with plain stand-ins for what it takes from libraries.
use pentagon5_foundation.Prelude.{
  false, ℕ, String, ◌+◌, ◌≡◌, refl, arith, ◌&&◌, ◌==◌, ltb, str_eq, one_of, if◌then◌else◌, none,
  some, List, [], ◌∷◌, ok, err, keep,
}
use pentagon5_foundation.Auth.Models.{
  authentication_error, permission_denied, http_error, Principal,
}
use pentagon5_foundation.Auth.Tables.{Db, exists, delete_where, one_or_none}
use pentagon5_foundation.Auth.Repository.Flows.{flow_matches, consume_flow}
use pentagon5_foundation.Auth.Repository.Tickets.{put_ws_ticket}
use pentagon5_foundation.Auth.Repository.Sessions.{session_usable}
use pentagon5_foundation.Runtime.Config.{RuntimeSettings}
use pentagon5_foundation.Auth.Config.{Settings}
use pentagon5_foundation.Auth.Service.Externals.{Outside, Oidc, not_object}
use pentagon5_foundation.Auth.Service.{
  Draws, seconds, fingerprint, random_token, require, check_channel, store_ticket, issue_ws_ticket,
  consume_ws_ticket, complete_login,
}
use pentagon5_foundation.Auth.Service.Channels.{
  issued, issue_ws_ticket_refused, consume-issue_ws_ticket,
}
use pentagon5_foundation.Auth.Service.Guards.{complete_login_once}

abbrev pub plain : Outside ℕ
plain = record {
  hmac_hex = λ key token. token;
  s256 = λ verifier. verifier;
  encrypt = λ nonce bytes associated. bytes;
  decrypt = λ nonce bytes associated. some bytes;
  dumps = λ d. [];
  loads = λ bytes. some not_object;
  b64encode = λ bytes. "sealed";
  b64decode = λ value. some [];
  urlencode_code = λ code. code;
  lower = λ value. value;
  strip = λ value. value;
}

abbrev pub provider : Oidc
provider = record {
  authorization_url = λ state nonce challenge. ok state;
  exchange = λ code verifier nonce. err http_error;
}

abbrev pub runtime : RuntimeSettings ℕ
runtime = record {
  service_name = "authentication";
  environment = "test";
  database_url = "postgresql://database";
  log_level = "INFO";
  otlp_endpoint = none;
  cors_origins = [];
  max_body_bytes = 1048576;
  request_timeout_seconds = 15;
}

abbrev pub settings : Settings ℕ ℕ
settings = record {
  runtime = runtime;
  issuer = "issuer";
  client_id = "client";
  client_secret = "secret";
  redirect_uri = "app:/";
  hmac_key =
      7 ∷ 7 ∷ 7 ∷ 7 ∷ 7 ∷ 7 ∷ 7 ∷ 7 ∷ 7 ∷ 7 ∷ 7 ∷ 7 ∷ 7 ∷ 7 ∷ 7 ∷ 7 ∷ 7 ∷ 7 ∷ 7 ∷ 7 ∷ 7 ∷ 7 ∷ 7 ∷ 7
      ∷ 7 ∷ 7 ∷ 7 ∷ 7 ∷ 7 ∷ 7 ∷ 7 ∷ 7 ∷ [];
  desktop_callback_uri = "pentagon5://auth/callback";
  session_ttl_seconds = 28800;
  flow_ttl_seconds = 300;
  login_grant_ttl_seconds = 60;
  ws_ticket_ttl_seconds = 30;
  ws_max_frame_bytes = 16384;
  ws_max_subscriptions = 1;
  web_cookie_mode = false;
}

abbrev pub same_order : List String → List String
same_order names = names

abbrev pub ada : Principal
ada = record {
  user_id = 1;
  session_id = 4;
  device_id = none;
  email = "ada@example.com";
  display_name = "Ada";
  roles = [];
  permissions = [];
  expires_at = 100;
}

abbrev pub tables : Db
tables = record {
  users =
      record {
        id = 1;
        email = "ada@example.com";
        display_name = "Ada";
        status = "active";
        updated_at = 0;
      }
      ∷ [];
  devices = [];
  sessions =
      record {
        id = 4;
        user_id = 1;
        device_id = none;
        token_fingerprint = "token";
        expires_at = 100;
        revoked_at = none;
      }
      ∷ [];
  identities = [];
  flows =
      record {
        id = 2;
        state_fingerprint = "state";
        encrypted_payload = "sealed";
        redirect_uri = "app:/";
        expires_at = 90;
      }
      ∷ [];
  grants = [];
  tickets = [];
  events = [];
  roles = [];
  permissions = [];
  user_roles = [];
  role_permissions = [];
}

-- Everything that these runs compute with.
unfoldable running : ℕ
unfolding issue_ws_ticket check_channel require store_ticket random_token fingerprint put_ws_ticket
    exists one_of session_usable consume_flow flow_matches keep one_or_none delete_where
running = 0

issue_ws_ticket_refused_example :
    issue_ws_ticket plain provider settings same_order 5 "drawn" ada "system.health" 10 tables ≡ (
      err (
          if one_of "system.health" ("system.health" ∷ "session.events" ∷ [])
          then permission_denied "missing permission: system.health.read"
          else authentication_error "unsupported WebSocket channel"),
      tables,
    )
unfolding running
issue_ws_ticket_refused_example =
    issue_ws_ticket_refused plain provider settings same_order 5 "drawn" ada "system.health" 10
      tables refl

consume-issue_ws_ticket_example :
    (consume_ws_ticket plain provider settings same_order "drawn" "session.events" 20
      (issued plain provider settings same_order 5 "drawn" ada "session.events" 10 tables).1).0
    ≡ (if str_eq "session.events" "session.events"
          && ltb 20 (10 + seconds 30)
          && exists (λ s. s.id == 4 && session_usable s 20) tables.sessions
        then ok 4
        else err (authentication_error "WebSocket ticket is invalid or expired"))
unfolding running
consume-issue_ws_ticket_example =
    consume-issue_ws_ticket plain provider settings same_order 5 "drawn" ada "session.events" 10
      tables "session.events" 20 refl refl

abbrev draws : Draws ℕ
draws = record {
  user_id = 11;
  identity_id = 12;
  device_id = 13;
  session_id = 14;
  event_id = 15;
  grant_id = 16;
  db_now = 50;
  token = "new";
  grant_code = "grant";
  nonce = [];
}

complete_login_once_example :
    (complete_login plain provider settings same_order draws 60 "state" "again"
      (complete_login plain provider settings same_order draws 50 "state" "code" tables).1).0
    ≡ err (authentication_error "authorization transaction is invalid or expired")
unfolding running
complete_login_once_example =
    complete_login_once plain provider settings same_order draws draws 50 60 "state" "code" "again"
      "state" tables refl refl refl (omega arith) refl
