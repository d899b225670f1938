-- ===== src/Auth/Service/SealingTests.antt =====
-- Sealing with stand-ins that can be undone: a byte is a character or a separator, a JSON object is
-- its keys and values one after the other, and a text has two characters for each byte.
use Prim.Native.Nat.{compare, Ordering}
use Prim.Native.Char.{Char, code}
use pentagon5_foundation.Prelude.{
  false, ℕ, String, ◌≡◌, refl, ap, Option, none, some, List, [], ◌∷◌, ok, err,
}
use pentagon5_foundation.Prelude.Dict.{Dict}
use pentagon5_foundation.Auth.Models.{http_error}
use pentagon5_foundation.Auth.Tables.{Db, exists}
use pentagon5_foundation.Auth.Repository.Flows.{put_login_grant}
use pentagon5_foundation.Runtime.Config.{RuntimeSettings}
use pentagon5_foundation.Auth.Config.{Settings}
use pentagon5_foundation.Auth.Service.{
  Draws, store_grant, exchange_login_grant, authenticate, random_token, fingerprint,
}
use pentagon5_foundation.Auth.Service.Sealing.{answer_of, exchange-store_grant}
use pentagon5_foundation.Auth.Service.Externals.{
  Outside, Oidc, IsInverse, Value, text, object, texts,
}

-- A text and a separator before the bytes that follow.
framed : String → List (Option Char) → List (Option Char)
framed String.[] rest = none ∷ rest
framed (String.◌∷◌ c s) rest = some c ∷ framed s rest

dumped : Dict String → List (Option Char)
dumped [] = []
dumped ((k, v) ∷ d) = framed k (framed v (dumped d))

longer : Char → List String → List String
longer c [] = []
longer c (s ∷ ss) = String.◌∷◌ c s ∷ ss

parts : List (Option Char) → List String
parts [] = String.[] ∷ []
parts (none ∷ rest) = String.[] ∷ parts rest
parts (some c ∷ rest) = longer c (parts rest)

members : List String → Dict Value
members (k ∷ v ∷ rest) = (k, text v) ∷ members rest
members (k ∷ []) = []
members [] = []

parts-framed : (s : String) (rest : List (Option Char)) → parts (framed s rest) ≡ s ∷ parts rest
unfolding framed parts longer
parts-framed String.[] rest = refl
parts-framed (String.◌∷◌ c s) rest = ap (longer c) (parts-framed s rest)

members-dumped : (d : Dict String) → members (parts (dumped d)) ≡ texts d
unfolding dumped parts members
members-dumped [] = refl
members-dumped ((k, v) ∷ d) =
    rw (parts-framed k (framed v (dumped d)), parts-framed v (dumped d))
      (ap (λ r. (k, text v) ∷ r) (members-dumped d))

encoded : List (Option Char) → String
encoded [] = String.[]
encoded (none ∷ bytes) = String.◌∷◌ "n" (String.◌∷◌ "n" (encoded bytes))
encoded (some c ∷ bytes) = String.◌∷◌ "s" (String.◌∷◌ c (encoded bytes))

byte_of : Char → Char → Option Char
byte_of flag c = elim (compare (code flag) 115) [ Ordering.eq ↦ some c | _ ↦ none ]

decoded : String → List (Option Char)
decoded String.[] = []
decoded (String.◌∷◌ flag String.[]) = []
decoded (String.◌∷◌ flag (String.◌∷◌ c s)) = byte_of flag c ∷ decoded s

decoded-encoded : (bytes : List (Option Char)) → decoded (encoded bytes) ≡ bytes
unfolding decoded encoded byte_of
decoded-encoded [] = refl
decoded-encoded (none ∷ bytes) = ap (λ r. none ∷ r) (decoded-encoded bytes)
decoded-encoded (some c ∷ bytes) = ap (λ r. some c ∷ r) (decoded-encoded bytes)

abbrev reversible : Outside (Option Char)
reversible = record {
  hmac_hex = λ key token. token;
  s256 = λ verifier. verifier;
  encrypt = λ nonce bytes associated. bytes;
  decrypt = λ nonce bytes associated. some bytes;
  dumps = dumped;
  loads = λ bytes. some (object (members (parts bytes)));
  b64encode = encoded;
  b64decode = λ value. some (decoded value);
  urlencode_code = λ code. code;
  lower = λ value. value;
  strip = λ value. value;
}

reversible-IsInverse : IsInverse reversible
reversible-IsInverse = record {
  decrypted = λ nonce plain associated. refl;
  loaded = λ d. ap (λ m. some (object m)) (members-dumped d);
  decoded = λ bytes. ap some (decoded-encoded bytes);
}

abbrev provider : Oidc
provider = record {
  authorization_url = λ state nonce challenge. ok state;
  exchange = λ code verifier nonce. err http_error;
}

abbrev runtime : RuntimeSettings ℕ
runtime = record {
  service_name = "authentication";
  environment = "test";
  database_url = "postgresql://database";
  log_level = "INFO";
  otlp_endpoint = none;
  cors_origins = [];
  max_body_bytes = 1048576;
  request_timeout_seconds = 15;
}

abbrev settings : Settings ℕ (Option Char)
settings = record {
  runtime = runtime;
  issuer = "issuer";
  client_id = "client";
  client_secret = "secret";
  redirect_uri = "app:/";
  hmac_key =
      none ∷ none ∷ none ∷ none ∷ none ∷ none ∷ none ∷ none ∷ none ∷ none ∷ none ∷ none ∷ none
      ∷ none ∷ none ∷ none ∷ none ∷ none ∷ none ∷ none ∷ none ∷ none ∷ none ∷ none ∷ none ∷ none
      ∷ none ∷ none ∷ none ∷ none ∷ none ∷ none ∷ [];
  desktop_callback_uri = "pentagon5://auth/callback";
  session_ttl_seconds = 28800;
  flow_ttl_seconds = 300;
  login_grant_ttl_seconds = 60;
  ws_ticket_ttl_seconds = 30;
  ws_max_frame_bytes = 16384;
  ws_max_subscriptions = 1;
  web_cookie_mode = false;
}

abbrev same_order : List String → List String
same_order names = names

abbrev twelve : List (Option Char)
twelve = none ∷ none ∷ none ∷ none ∷ none ∷ none ∷ none ∷ none ∷ none ∷ none ∷ none ∷ none ∷ []

abbrev draws : Draws (Option Char)
draws = record {
  user_id = 11;
  identity_id = 12;
  device_id = 13;
  session_id = 14;
  event_id = 15;
  grant_id = 16;
  db_now = 50;
  token = "new";
  grant_code = "grant";
  nonce = twelve;
}

abbrev tables : Db
tables = record {
  users =
      record {
        id = 1;
        email = "ada@example.com";
        display_name = "Ada";
        status = "active";
        updated_at = 0;
      }
      ∷ [];
  devices = [];
  sessions =
      record {
        id = 4;
        user_id = 1;
        device_id = none;
        token_fingerprint = "new";
        expires_at = 100;
        revoked_at = none;
      }
      ∷ [];
  identities = [];
  flows =
      record {
        id = 2;
        state_fingerprint = "state";
        encrypted_payload = "sealed";
        redirect_uri = "app:/";
        expires_at = 90;
      }
      ∷ [];
  grants = [];
  tickets = [];
  events = [];
  roles = [];
  permissions = [];
  user_roles = [];
  role_permissions = [];
}

exchange-store_grant_example :
    (exchange_login_grant reversible provider settings same_order 51 52 "grant"
      (store_grant reversible provider settings same_order draws 50 tables).1).0
    ≡ answer_of reversible provider settings same_order "new"
        (authenticate reversible provider settings same_order "new" 52 tables).0
unfolding store_grant random_token fingerprint put_login_grant exists
exchange-store_grant_example =
    exchange-store_grant reversible provider settings same_order draws 50 tables 51 52
      {r = record { code = "grant"; redirect_uri = "pentagon5://auth/callback?grant" }}
      reversible-IsInverse refl refl refl refl refl
