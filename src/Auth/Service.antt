-- ===== src/Auth/Service.antt =====
-- services/authentication/pentagon5_auth/service.py: `AuthenticationService`, with
-- backend/pentagon5_runtime/security.py. The clock, `uuid7`, `secrets` and `os.urandom` are
-- arguments; times are microseconds.
pub mod Externals
pub mod Sealing
pub mod Guards
pub mod Channels
pub mod Tests
mod SealingTests
use Prim.Native.String
use pentagon5_foundation.Prelude.{
  ℕ, zero, suc, String, Bool, true, false, if◌then◌else◌, ◌&&◌, ◌||◌, not, ◌+◌, ◌*◌, ◌<◌, ◌≡◌,
  Option, none, some, List, [], ◌∷◌, ◌++◌, Result, ok, err, Exec, pure, raise, lift, ◌>>=◌, ◌>>◌,
  raise_if, or_raise, and_then, check, ltb, leb, str_eq, one_of, length, is_none,
}
use pentagon5_foundation.Prelude.Dict.{Dict, lookup}
use pentagon5_foundation.Auth.Models.{
  Error, authentication_error, permission_denied, value_error, Flow, Identity, Principal,
  SessionGrant, LoginRedirect, Device,
}
use pentagon5_foundation.Auth.Config.{Settings}
use pentagon5_foundation.Auth.Tables.{Db, Query}
use pentagon5_foundation.Auth.Repository.Flows as Flows
use pentagon5_foundation.Auth.Repository.Devices as Devices
use pentagon5_foundation.Auth.Repository.Sessions as Sessions
use pentagon5_foundation.Auth.Repository.Tickets as Tickets
use pentagon5_foundation.Auth.Service.Externals.{
  Outside, Oidc, Value, text, other, Document, object, not_object,
}

abbrev pub seconds : ℕ → ℕ
seconds n = n * 1000000

-- `random_token(n)`, with the text that `secrets` draws.
unfoldable pub random_token : ℕ → String → Result Error String
random_token bytes_count drawn =
    and_then (check (ltb bytes_count 32) (value_error "security tokens require at least 256 bits"))
      λ _. ok drawn

-- `WS_CHANNELS`
abbrev pub ws_channels : List String
ws_channels = "system.health" ∷ "session.events" ∷ []

abbrev pub flow_data : String
flow_data = "p5-oidc-flow-v1"

abbrev pub grant_data : String
grant_data = "p5-login-grant-v1"

abbrev pub first : {A : Type 0} → ℕ → List A → List A
first zero bs = []
first (suc n) [] = []
first (suc n) (b ∷ bs) = b ∷ first n bs

abbrev pub after : {A : Type 0} → ℕ → List A → List A
after zero bs = bs
after (suc n) [] = []
after (suc n) (b ∷ bs) = after n bs

-- A text that is not empty, or the error.
unfoldable pub required : Dict Value → String → Result Error String
required payload key = elim (lookup key payload) [
  | some (text value) ↦
      and_then
        (check (str_eq value "")
          (authentication_error (String.◌++◌ "authorization transaction is missing " key)))
        λ _. ok value
  | _ ↦ err (authentication_error (String.◌++◌ "authorization transaction is missing " key))
]

-- The values that a login draws.
pub record Draws (Byte : Type 0) : Type 0 where
  pub user_id : ℕ
  pub identity_id : ℕ
  pub device_id : ℕ
  pub session_id : ℕ
  pub event_id : ℕ
  pub grant_id : ℕ
  pub db_now : ℕ
  pub token : String
  pub grant_code : String
  pub nonce : List Byte

-- `order_by_name` is the database's `ORDER BY r.name`.
module _ {F Byte : Type 0} (o : Outside Byte) (oidc : Oidc) (settings : Settings F Byte)
    (order_by_name : List String → List String) where
  unfoldable pub fingerprint : String → Result Error String
  fingerprint token =
      and_then
        (check (ltb (length settings.hmac_key) 32)
          (value_error "fingerprint keys require at least 256 bits"))
        λ _. ok (o.hmac_hex settings.hmac_key token)

  unfoldable pub seal : List Byte → Dict String → String → String
  seal nonce payload associated =
      o.b64encode (nonce ++ o.encrypt nonce (o.dumps payload) associated)

  unfoldable pub decoded_document : String → String → Option Document
  decoded_document value associated = elim (o.b64decode value) [
    | none ↦ none
    | some encoded ↦ elim (o.decrypt (first 12 encoded) (after 12 encoded) associated) [
      | none ↦ none
      | some plain ↦ o.loads plain
    ]
  ]

  -- `_open`
  unfoldable pub unseal : String → String → Result Error (Dict Value)
  unseal value associated = elim (decoded_document value associated) [
    | none ↦ err (authentication_error "authorization transaction cannot be decrypted")
    | some not_object ↦ err (authentication_error "authorization transaction is malformed")
    | some (object payload) ↦ ok payload
  ]

  unfoldable pub display_name_of : Option Value → String → String
  display_name_of (some (text name)) email = if str_eq (o.strip name) "" then email else name
  display_name_of _ email = email

  unfoldable pub identity_of : Dict Value → Result Error Identity
  identity_of claims = elim (lookup "sub" claims) [
    | some (text subject) ↦ elim (lookup "email" claims) [
      | some (text email) ↦ ok (record {
        issuer = settings.issuer;
        subject = subject;
        email = o.lower email;
        display_name = o.strip (display_name_of (lookup "name" claims) email);
      })
      | _ ↦ err (authentication_error "ID token is missing subject or email")
    ]
    | _ ↦ err (authentication_error "ID token is missing subject or email")
  ]

  unfoldable pub start_login :
      ℕ → ℕ → String → String → String → List Byte → String → String → Query String
  start_login id now state nonce verifier seal_nonce device_key platform = do
    raise_if (not (leb 8 (String.count device_key) && leb (String.count device_key) 200))
        (authentication_error "device key must contain 8 to 200 characters")
    raise_if
        (not (one_of platform ("macos" ∷ "windows" ∷ "linux" ∷ "ios" ∷ "android" ∷ "web" ∷ [])))
        (authentication_error "unsupported device platform")
    state' ← lift (random_token 32 state)
    nonce' ← lift (random_token 32 nonce)
    verifier' ← lift (random_token 48 verifier)
    let payload =
        seal seal_nonce
          (("verifier", verifier')
            ∷ ("nonce", nonce')
            ∷ ("device_key", device_key)
            ∷ ("platform", platform)
            ∷ [])
          flow_data
    state_print ← lift (fingerprint state')
    Flows.put_flow id state_print payload settings.redirect_uri
        (now + seconds settings.flow_ttl_seconds)
    lift (oidc.authorization_url state' nonce' (o.s256 verifier'))

  unfoldable pub checked_flow : Option Flow → Query Flow
  checked_flow flow = do
    found ← or_raise flow (authentication_error "authorization transaction is invalid or expired")
    raise_if (not (str_eq found.redirect_uri settings.redirect_uri))
        (authentication_error "authorization redirect URI does not match")
    pure found

  -- The claims are fetched, and the user, the device and the session are stored.
  unfoldable pub open_session : Draws Byte → ℕ → Dict Value → String → Query Principal
  open_session d now payload code = do
    verifier ← lift (required payload "verifier")
    nonce ← lift (required payload "nonce")
    claims ← lift (oidc.exchange code verifier nonce)
    identity ← lift (identity_of claims)
    user_id ← Devices.provision_identity d.user_id d.identity_id d.db_now identity
    device_key ← lift (required payload "device_key")
    key_print ← lift (fingerprint device_key)
    platform ← lift (required payload "platform")
    device_id ← Devices.register_device d.device_id d.db_now user_id key_print platform now
    token ← lift (random_token 32 d.token)
    token_print ← lift (fingerprint token)
    Sessions.create_session d.session_id d.event_id user_id device_id token_print
        (now + seconds settings.session_ttl_seconds)
    found ← Sessions.resolve_session order_by_name token_print now
    or_raise found (authentication_error "identity is not permitted to create a session")

  unfoldable pub store_grant : Draws Byte → ℕ → Query LoginRedirect
  store_grant d now = do
    grant_code ← lift (random_token 32 d.grant_code)
    grant_print ← lift (fingerprint grant_code)
    Flows.put_login_grant d.grant_id grant_print
        (seal d.nonce (("session_token", d.token) ∷ []) grant_data)
        (now + seconds settings.login_grant_ttl_seconds)
    pure (record {
      code = grant_code;
      redirect_uri =
          String.◌++◌ (String.◌++◌ settings.desktop_callback_uri "?") (o.urlencode_code grant_code);
    })

  unfoldable pub complete_login : Draws Byte → ℕ → String → String → Query LoginRedirect
  complete_login d now state code = do
    raise_if (str_eq state "" || str_eq code "")
        (authentication_error "state and authorization code are required")
    state_print ← lift (fingerprint state)
    flow ← Flows.consume_flow state_print now
    found ← checked_flow flow
    payload ← lift (unseal found.encrypted_payload flow_data)
    open_session d now payload code
    store_grant d now

  unfoldable pub authenticate : String → ℕ → Query Principal
  authenticate token now = do
    raise_if (str_eq token "") (authentication_error "session token is required")
    token_print ← lift (fingerprint token)
    found ← Sessions.resolve_session order_by_name token_print now
    or_raise found (authentication_error "session is invalid or expired")

  -- The grant's token, once it is consumed.
  unfoldable pub granted : ℕ → Option String → Query SessionGrant
  granted later encrypted = do
    sealed ← or_raise encrypted (authentication_error "login grant is invalid or expired")
    payload ← lift (unseal sealed grant_data)
    token ← lift (required payload "session_token")
    principal ← authenticate token later
    pure (record { token = token; principal = principal })

  -- `later` is the clock at the call of `authenticate`.
  unfoldable pub exchange_login_grant : ℕ → ℕ → String → Query SessionGrant
  exchange_login_grant now later code = do
    raise_if (str_eq code "") (authentication_error "login grant code is required")
    code_print ← lift (fingerprint code)
    encrypted ← Flows.consume_login_grant code_print now
    granted later encrypted

  unfoldable pub require : Principal → String → Query (Unit {0})
  require principal permission =
      raise_if (not (one_of permission principal.permissions))
        (permission_denied (String.◌++◌ "missing permission: " permission))

  unfoldable pub logout : ℕ → Principal → ℕ → Query (Unit {0})
  logout event_id principal now = Sessions.revoke_session event_id principal.session_id now

  unfoldable pub devices : Principal → Query (List Device)
  devices principal = Devices.list_devices principal.user_id

  unfoldable pub revoke_device : Principal → ℕ → ℕ → Query (Unit {0})
  revoke_device principal device_id now = do
    found ← Sessions.revoke_device principal.user_id device_id now
    raise_if (not found) (authentication_error "device was not found")

  unfoldable pub check_channel : Principal → String → Query (Unit {0})
  check_channel principal channel = do
    raise_if (not (one_of channel ws_channels))
        (authentication_error "unsupported WebSocket channel")
    if str_eq channel "system.health" then require principal "system.health.read" else pure tt

  unfoldable pub store_ticket : ℕ → String → Principal → String → ℕ → Query String
  store_ticket id drawn principal channel now = do
    ticket ← lift (random_token 32 drawn)
    ticket_print ← lift (fingerprint ticket)
    Tickets.put_ws_ticket id ticket_print principal.session_id channel
        (now + seconds settings.ws_ticket_ttl_seconds)
    pure ticket

  unfoldable pub issue_ws_ticket : ℕ → String → Principal → String → ℕ → Query String
  issue_ws_ticket id drawn principal channel now =
      check_channel principal channel >> store_ticket id drawn principal channel now

  unfoldable pub consume_ws_ticket : String → String → ℕ → Query ℕ
  consume_ws_ticket ticket channel now = do
    raise_if (not (one_of channel ws_channels))
        (authentication_error "unsupported WebSocket channel")
    ticket_print ← lift (fingerprint ticket)
    session_id ← Tickets.consume_ws_ticket ticket_print channel now
    or_raise session_id (authentication_error "WebSocket ticket is invalid or expired")
