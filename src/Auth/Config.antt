-- ===== src/Auth/Config.antt =====
-- services/authentication/pentagon5_auth/config.py: the settings of the authentication service.
pub mod Loaded
mod Tests
use Prim.Native.String
use pentagon5_foundation.Prelude.{
  ℕ, zero, suc, String, Bool, true, false, ◌&&◌, ◌||◌, not, ◌%◌, ◌-◌, Option, none, some, List, [],
  ◌∷◌, Result, ok, err, and_then, check, str_eq, one_of, ltb, leb, length, if◌then◌else◌,
}
use pentagon5_foundation.Prelude.Int.{ℤ, pos, negsuc}
use pentagon5_foundation.Prelude.Dict.{Dict, lookup}
use pentagon5_foundation.Runtime.Config.{
  Reading, RuntimeSettings, Url, ConfigError, configuration_error, get_or, secret_value,
  load_runtime_settings,
}

-- Python's `int(text)`, and `base64.b64decode` of URL-safe text with validation; none where they
-- raise a `ValueError`.
pub record AuthReading (F Byte : Type 0) : Type 0 where
  pub runtime : Reading F
  pub parse_int : String → Option ℤ
  pub b64decode : String → Option (List Byte)

pub record Settings (F Byte : Type 0) : Type 0 where
  pub runtime : RuntimeSettings F
  pub issuer : String
  pub client_id : String
  pub client_secret : String
  pub redirect_uri : String
  pub hmac_key : List Byte
  pub desktop_callback_uri : String
  pub session_ttl_seconds : ℕ
  pub flow_ttl_seconds : ℕ
  pub login_grant_ttl_seconds : ℕ
  pub ws_ticket_ttl_seconds : ℕ
  pub ws_max_frame_bytes : ℕ
  pub ws_max_subscriptions : ℕ
  pub web_cookie_mode : Bool

abbrev pub auth_keys : List String
auth_keys =
    "P5_OIDC_CLIENT_ID" ∷ "P5_OIDC_CLIENT_SECRET" ∷ "P5_OIDC_CLIENT_SECRET_FILE" ∷ "P5_OIDC_ISSUER"
    ∷ "P5_OIDC_REDIRECT_URI" ∷ "P5_DESKTOP_CALLBACK_URI" ∷ "P5_LOGIN_GRANT_TTL_SECONDS"
    ∷ "P5_SESSION_HMAC_KEY" ∷ "P5_SESSION_HMAC_KEY_FILE" ∷ "P5_SESSION_TTL_SECONDS"
    ∷ "P5_OIDC_FLOW_TTL_SECONDS" ∷ "P5_WS_TICKET_TTL_SECONDS" ∷ "P5_WS_MAX_FRAME_BYTES"
    ∷ "P5_WS_MAX_SUBSCRIPTIONS" ∷ "P5_WEB_COOKIE_MODE" ∷ []

-- `"=" * (-len(text) % 4)`
abbrev pub equals_signs : ℕ → String
equals_signs zero = ""
equals_signs (suc n) = String.◌++◌ "=" (equals_signs n)

abbrev pub padding : ℕ → ℕ
padding n = (4 - n % 4) % 4

abbrev pub is_local : String → Bool
is_local environment = one_of environment ("development" ∷ "test" ∷ [])

-- The URLs of the provider: HTTPS outside development and test.
unfoldable pub provider_urls_valid : String → Url → Url → Result ConfigError (Unit {0})
provider_urls_valid environment issuer redirect =
    if is_local environment
    then check (not (one_of issuer.scheme ("http" ∷ "https" ∷ [])))
        (configuration_error "OIDC issuer must use HTTP or HTTPS")
    else check (not (str_eq issuer.scheme "https") || not (str_eq redirect.scheme "https"))
        (configuration_error "OIDC issuer and redirect URI must use HTTPS")

unfoldable pub is_custom_uri : Url → Bool
is_custom_uri u =
    not (str_eq u.scheme "")
    && not (one_of u.scheme ("http" ∷ "https" ∷ []))
    && str_eq u.query ""
    && str_eq u.fragment ""
    && not (str_eq u.netloc "")

module _ {F Byte : Type 0} (r : AuthReading F Byte) where
  -- `default` and the maximum are given with their texts.
  unfoldable pub positive_int : Dict String → String → String → ℕ → String → Result ConfigError ℕ
  positive_int values name default maximum maximum_text =
      elim (r.parse_int (get_or values name default)) [
        | none ↦ err (configuration_error (String.◌++◌ name " must be an integer"))
        | some (negsuc n) ↦ err (
            configuration_error
              (String.◌++◌ name (String.◌++◌ " must be between 1 and " maximum_text)))
        | some (pos n) ↦
            and_then
              (check (not (leb 1 n && leb n maximum)) (
                configuration_error
                  (String.◌++◌ name (String.◌++◌ " must be between 1 and " maximum_text))))
              λ _. ok n
      ]

  unfoldable pub decoded_key : String → Result ConfigError (List Byte)
  decoded_key raw =
      elim (r.b64decode (String.◌++◌ raw (equals_signs (padding (String.count raw))))) [
        | none ↦ err (configuration_error "P5_SESSION_HMAC_KEY must be URL-safe base64")
        | some key ↦
            and_then
              (check (ltb (length key) 32)
                (configuration_error "P5_SESSION_HMAC_KEY must decode to at least 32 bytes"))
              λ _. ok key
      ]

  -- The construction of the settings, with the values that are read in it.
  unfoldable pub settings_with :
      Dict String
      → RuntimeSettings F
      → String
      → String
      → String
      → List Byte
      → String
      → ℕ
      → Bool
      → Result ConfigError (Settings F Byte)
  settings_with values runtime issuer client_id redirect_uri hmac_key desktop_callback_uri
        ws_max_frame_bytes web_cookie_mode =
      and_then (secret_value r.runtime "P5_OIDC_CLIENT_SECRET" values) λ client_secret.
        and_then (positive_int values "P5_SESSION_TTL_SECONDS" "28800" 86400 "86400")
          λ session_ttl_seconds.
            and_then (positive_int values "P5_OIDC_FLOW_TTL_SECONDS" "300" 600 "600")
              λ flow_ttl_seconds.
                and_then (positive_int values "P5_LOGIN_GRANT_TTL_SECONDS" "60" 120 "120")
                  λ login_grant_ttl_seconds.
                    and_then (positive_int values "P5_WS_TICKET_TTL_SECONDS" "30" 60 "60")
                      λ ws_ticket_ttl_seconds.
                        and_then (positive_int values "P5_WS_MAX_SUBSCRIPTIONS" "1" 4 "4")
                          λ ws_max_subscriptions. ok (record {
                            runtime = runtime;
                            issuer = issuer;
                            client_id = client_id;
                            client_secret = client_secret;
                            redirect_uri = redirect_uri;
                            hmac_key = hmac_key;
                            desktop_callback_uri = desktop_callback_uri;
                            session_ttl_seconds = session_ttl_seconds;
                            flow_ttl_seconds = flow_ttl_seconds;
                            login_grant_ttl_seconds = login_grant_ttl_seconds;
                            ws_ticket_ttl_seconds = ws_ticket_ttl_seconds;
                            ws_max_frame_bytes = ws_max_frame_bytes;
                            ws_max_subscriptions = ws_max_subscriptions;
                            web_cookie_mode = web_cookie_mode;
                          })

  unfoldable pub load_auth_settings : Dict String → Result ConfigError (Settings F Byte)
  load_auth_settings values =
      let issuer = r.runtime.rstrip_slash (get_or values "P5_OIDC_ISSUER" "") in
      let redirect_uri = get_or values "P5_OIDC_REDIRECT_URI" "" in
      let client_id = get_or values "P5_OIDC_CLIENT_ID" "" in
      let desktop_callback_uri = get_or values "P5_DESKTOP_CALLBACK_URI" "" in
      let web_cookie_value = r.runtime.lower (get_or values "P5_WEB_COOKIE_MODE" "false") in
      and_then (load_runtime_settings r.runtime values auth_keys) λ runtime.
        and_then
          (check
            (str_eq issuer ""
              || str_eq client_id ""
              || str_eq redirect_uri ""
              || str_eq desktop_callback_uri "")
            (configuration_error
              "OIDC issuer, client ID, provider redirect URI, and desktop callback URI are required"))
          λ _. and_then (r.runtime.urlparse issuer) λ issuer_url.
            and_then (r.runtime.urlparse redirect_uri) λ redirect_url.
              and_then (r.runtime.urlparse desktop_callback_uri) λ desktop_url.
                and_then (provider_urls_valid runtime.environment issuer_url redirect_url) λ _.
                  and_then
                    (check (not (is_custom_uri desktop_url)) (
                      configuration_error
                        "P5_DESKTOP_CALLBACK_URI must be an exact custom URI without query or fragment"))
                    λ _.
                      and_then
                        (check (not (one_of web_cookie_value ("true" ∷ "false" ∷ [])))
                          (configuration_error "P5_WEB_COOKIE_MODE must be true or false"))
                        λ _.
                          and_then (secret_value r.runtime "P5_SESSION_HMAC_KEY" values) λ raw_key.
                            and_then (decoded_key raw_key) λ hmac_key.
                              and_then
                                (positive_int values "P5_WS_MAX_FRAME_BYTES" "16384" 65536 "65536")
                                λ ws_max_frame_bytes.
                                  and_then
                                    (check (ltb ws_max_frame_bytes 1024) (
                                      configuration_error
                                        "P5_WS_MAX_FRAME_BYTES must be at least 1024"))
                                    λ _.
                                      settings_with values runtime issuer client_id redirect_uri
                                        hmac_key desktop_callback_uri ws_max_frame_bytes
                                        (str_eq web_cookie_value "true")
