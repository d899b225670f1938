-- ===== src/App/Routes.antt =====
-- services/authentication/pentagon5_auth/app.py: the HTTP routes of `create_app`, from a request whose
-- body FastAPI has parsed to what is answered. The identifiers, tokens and times that the service draws
-- are arguments, `at` is the clock of `current_principal`.
pub mod Principals
pub mod Answers
use Prim.Native.String
use Prim.Native.Char.{code}
use pentagon5_foundation.Prelude.{
  ℕ, String, Bool, true, false, ◌&&◌, ◌||◌, not, ◌==◌, Option, none, some, List, [], ◌∷◌, Result,
  ok, err, Exec, pure, raise, lift, ◌>>=◌, ◌>>◌, and_then, str_eq, one_of, leb, map, if◌then◌else◌,
}
use pentagon5_foundation.Auth.Models.{
  Error, authentication_error, oidc_error, permission_denied, http_error, Principal, SessionGrant,
  LoginRedirect, Device,
}
use pentagon5_foundation.Auth.Config.{Settings}
use pentagon5_foundation.Auth.Tables.{Db, Query}
use pentagon5_foundation.Auth.Service as Service
use pentagon5_foundation.Auth.Service.{Draws}
use pentagon5_foundation.Auth.Service.Externals.{Outside, Oidc}

pub record ApiError : Type 0 where
  pub status_code : ℕ
  pub error_code : String
  pub error_message : String
  pub retryable : Bool

-- What leaves a route: an `ApiError`, an `HTTPException`, FastAPI's `RequestValidationError` with the
-- place of the first error, or another exception.
pub data Failure : Type 0 where
  api_error : ApiError → Failure
  http_exception : ℕ → Failure
  invalid_request : Option String → Failure
  uncaught : Failure

abbrev pub Route : Type 0 → Type 0
Route A = Exec Failure Db A

-- The cookie of a response.
pub data Cookie : Type 0 where
  unchanged deleted : Cookie
  set : String → ℕ → Cookie

pub record Request : Type 0 where
  pub authorization : Option String
  pub session_cookie : Option String

pub record SessionResponse : Type 0 where
  pub user_id : ℕ
  pub session_id : ℕ
  pub email : String
  pub display_name : String
  pub roles : List String
  pub permissions : List String
  pub expires_at : ℕ

pub record LoginGrantResponse : Type 0 where
  pub session_token : String
  pub session : SessionResponse

pub record TicketResponse : Type 0 where
  pub ticket : String
  pub channel : String
  pub expires_in_seconds : ℕ

abbrev pub not_retryable : ℕ → String → String → ApiError
not_retryable status_code error_code error_message = record {
  status_code = status_code;
  error_code = error_code;
  error_message = error_message;
  retryable = false;
}

-- `_session_response`
abbrev pub session_response : Principal → SessionResponse
session_response p = record {
  user_id = p.user_id;
  session_id = p.session_id;
  email = p.email;
  display_name = p.display_name;
  roles = p.roles;
  permissions = p.permissions;
  expires_at = p.expires_at;
}

abbrev pub is_authentication_error : Error → Bool
is_authentication_error (authentication_error m) = true
is_authentication_error _ = false

abbrev pub is_permission_denied : Error → Bool
is_permission_denied (permission_denied m) = true
is_permission_denied _ = false

-- `except (AuthenticationError, OIDCError, httpx.HTTPError)`
abbrev pub is_login_error : Error → Bool
is_login_error (authentication_error m) = true
is_login_error (oidc_error m) = true
is_login_error http_error = true
is_login_error _ = false

abbrev pub failed : (Error → Bool) → ApiError → Error → Failure
failed caught as_error e = if caught e then api_error as_error else uncaught

-- `try` around a call of the service, with one `except` clause.
unfoldable pub translated : {A : Type 0} → (Error → Bool) → ApiError → Query A → Route A
translated caught as_error q db =
    let (r, db') = q db in
    elim r [ ok a ↦ (ok a, db') | err e ↦ (err (failed caught as_error e), db') ]

abbrev pub nothing_caught : Error → Bool
nothing_caught e = false

abbrev pub session_invalid : ApiError
session_invalid = not_retryable 401 "SESSION_INVALID" "Session is invalid or expired"

abbrev pub scheme_invalid : ApiError
scheme_invalid = not_retryable 401 "AUTHORIZATION_SCHEME_INVALID" "Authorization must use Bearer"

abbrev pub or_empty : Option String → String
or_empty none = ""
or_empty (some s) = s

-- `value.partition(" ")`: the texts before and after the first space, or none where there is none.
unfoldable pub partition_space : String → Option (String × String)
partition_space String.[] = none
partition_space (String.◌∷◌ c s) =
    let rest = partition_space s in
    if code c == 32
    then some ("", s)
    else elim rest [ none ↦ none | some (a, b) ↦ some (String.◌∷◌ c a, b) ]

-- The lengths that the models and the `Query` declarations ask for.
abbrev pub has_length : ℕ → ℕ → String → Bool
has_length least most s = leb least (String.count s) && leb (String.count s) most

abbrev pub platforms : List String
platforms = "macos" ∷ "windows" ∷ "linux" ∷ "ios" ∷ "android" ∷ "web" ∷ []

-- A body or a parameter that is not valid does not reach the route, but a dependency is called before
-- it is looked at; `place` is where the error is.
abbrev pub validated : {A : Type 0} → Bool → Option String → Route A → Route A
validated b place route = if b then route else raise (invalid_request place)

module _ {F Byte : Type 0} (o : Outside Byte) (oidc : Oidc) (settings : Settings F Byte)
    (order_by_name : List String → List String) where
  -- The token of a request, of the header if there is one.
  unfoldable pub token_of : Request → Result Failure String
  token_of request =
      let authorization = or_empty request.authorization in
      if str_eq authorization ""
      then ok (if settings.web_cookie_mode then or_empty request.session_cookie else "")
      else elim (partition_space authorization) [
        | none ↦ err (api_error scheme_invalid)
        | some (scheme, credentials) ↦
            if str_eq (o.lower scheme) "bearer"
            then ok credentials
            else err (api_error scheme_invalid)
      ]

  unfoldable pub current_principal : Request → ℕ → Route Principal
  current_principal request at db = elim (token_of request) [
    | err e ↦ (err e, db)
    | ok token ↦
        translated is_authentication_error session_invalid
          (Service.authenticate o oidc settings order_by_name token at) db
  ]

  unfoldable pub start_login :
      ℕ → ℕ → String → String → String → List Byte → Option String → String → String → Route String
  start_login id now state nonce verifier seal_nonce place device_key platform =
      validated (has_length 8 200 device_key && one_of platform platforms) place (
        translated is_authentication_error
          (not_retryable 400 "LOGIN_REQUEST_INVALID" "Login request is invalid")
          (Service.start_login o oidc settings order_by_name id now state nonce verifier seal_nonce
            device_key platform))

  -- The redirection's address.
  unfoldable pub callback : Draws Byte → ℕ → Option String → String → String → Route String
  callback d now place login_code state_value =
      validated (has_length 1 4096 login_code && has_length 32 512 state_value) place (do
        redirect ←
            translated is_login_error (not_retryable 401 "OIDC_LOGIN_FAILED" "OIDC login failed")
              (Service.complete_login o oidc settings order_by_name d now state_value login_code)
        pure redirect.redirect_uri)

  unfoldable pub exchange : ℕ → ℕ → Option String → String → Route (LoginGrantResponse × Cookie)
  exchange now later place grant_code = validated (has_length 32 512 grant_code) place (do
    grant ←
        translated is_authentication_error
          (not_retryable 401 "LOGIN_GRANT_INVALID" "Login grant is invalid or expired")
          (Service.exchange_login_grant o oidc settings order_by_name now later grant_code)
    pure (
      record { session_token = grant.token; session = session_response grant.principal },
      if settings.web_cookie_mode then set grant.token settings.session_ttl_seconds else unchanged,
    ))

  unfoldable pub session : Request → ℕ → Route SessionResponse
  session request at = do
    principal ← current_principal request at
    pure (session_response principal)

  unfoldable pub logout : Request → ℕ → ℕ → ℕ → Route Cookie
  logout request at event_id now = do
    principal ← current_principal request at
    translated nothing_caught session_invalid
        (Service.logout o oidc settings order_by_name event_id principal now)
    pure (if settings.web_cookie_mode then deleted else unchanged)

  unfoldable pub devices : Request → ℕ → Route (List Device)
  devices request at = do
    principal ← current_principal request at
    translated nothing_caught session_invalid
        (Service.devices o oidc settings order_by_name principal)

  unfoldable pub revoke_device : Request → ℕ → ℕ → ℕ → Route (Unit {0})
  revoke_device request at device_id now = do
    principal ← current_principal request at
    translated is_authentication_error (not_retryable 404 "DEVICE_NOT_FOUND" "Device was not found")
        (Service.revoke_device o oidc settings order_by_name principal device_id now)

  unfoldable pub ws_ticket :
      Request → ℕ → ℕ → String → Option String → String → ℕ → Route TicketResponse
  ws_ticket request at id drawn place channel now = do
    principal ← current_principal request at
    validated (one_of channel Service.ws_channels) place (do
      ticket ←
          translated is_permission_denied
            (not_retryable 403 "PERMISSION_DENIED" "Permission denied")
            (Service.issue_ws_ticket o oidc settings order_by_name id drawn principal channel now)
      pure (record {
        ticket = ticket;
        channel = channel;
        expires_in_seconds = settings.ws_ticket_ttl_seconds;
      }))

  -- `available` is none where the check of the database runs out of time.
  unfoldable pub ready : Option Bool → Route String
  ready (some true) = pure "healthy"
  ready _ = raise (
      api_error (record {
        status_code = 503;
        error_code = "DATABASE_UNAVAILABLE";
        error_message = "Database is unavailable";
        retryable = true;
      }))
