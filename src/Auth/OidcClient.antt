-- ===== src/Auth/OidcClient.antt =====
-- services/authentication/pentagon5_auth/oidc.py: `OIDCClient`. `F` stands for a JSON number, `K` for
-- a signing key.
pub mod Checked
pub mod Endpoints
mod Tests
use Prim.Native.String
use package.text.Mathlib.Text.{starts_with}
use pentagon5_foundation.Prelude.{
  ℕ, zero, suc, String, ◌==◌, Bool, true, false, ◌&&◌, ◌||◌, not, Option, none, some, List, [], ◌∷◌,
  Result, ok, err, Exec, pure, raise, lift, ◌>>=◌, ◌>>◌, raise_if, and_then, check, str_eq, one_of,
  is_none, if◌then◌else◌, length, keep,
}
use pentagon5_foundation.Prelude.Dict.{Dict}
use pentagon5_foundation.Prelude.Json.{
  Json, Items, Members, end, member, null, bool, number, text, array, object, get, elements,
  equals_text, is_null,
}
use pentagon5_foundation.Auth.Config.{Settings, is_local}

-- `jwt_error` is any exception of PyJWT; `attribute_error` and `type_error` come from a document of
-- another shape.
pub data OidcError : Type 0 where
  oidc_error : String → OidcError
  http_error attribute_error type_error jwt_error : OidcError

pub record ProviderMetadata : Type 0 where
  pub authorization_endpoint : String
  pub token_endpoint : String
  pub jwks_uri : String

-- The header of a token, where PyJWT has checked that `kid` is a text if it is given.
pub record Header (F : Type 0) : Type 0 where
  pub alg : Option (Json F)
  pub kid : Option String

-- What `jwt.decode` is asked for besides the token and the key.
pub record Demands : Type 0 where
  pub algorithms : List String
  pub audience : String
  pub issuer : String
  pub require : List String

-- `get` and `post` with `raise_for_status` and `json`, whose errors come with the request; `str` of
-- a value that is not a text; `urlencode`; and PyJWT.
pub record Web (F K : Type 0) : Type 0 where
  pub get_json : String → Result OidcError (Json F)
  pub post_json : String → Dict String → Result OidcError (Json F)
  pub show : Json F → String
  pub urlencode : Dict String → String
  pub header : String → Result OidcError (Header F)
  pub key_of : Json F → Result OidcError K
  pub decode : String → K → Demands → Result OidcError (Members F)

-- A request that the client has sent.
pub data Request : Type 0 where
  got : String → Request
  posted : String → Dict String → Request

-- `_metadata`, and the requests sent, the last first.
pub record Client : Type 0 where
  pub cached : Option ProviderMetadata
  pub requests : List Request

abbrev pub Call : Type 0 → Type 0
Call A = Exec OidcError Client A

-- `document.get`
abbrev pub get_of : {F : Type 0} → String → Json F → Result OidcError (Option (Json F))
get_of key (object d) = ok (get key d)
get_of key _ = err attribute_error

-- What a loop over the value calls `.get` on.
unfoldable pub entries : {F : Type 0} → Option (Json F) → Result OidcError (List (Json F))
entries none = ok []
entries (some (array a)) = ok (elements a)
entries (some (object end)) = ok []
entries (some (object (member k v d))) = err attribute_error
entries (some (text s)) = if str_eq s "" then ok [] else err attribute_error
entries (some _) = err type_error

-- `key.get("kid") == kid`
unfoldable pub same_kid : {F : Type 0} → Option String → Option (Json F) → Bool
same_kid none v = is_null v
same_kid (some kid) v = equals_text v kid

unfoldable pub matching :
    {F : Type 0} → Option String → List (Json F) → Result OidcError (List (Json F))
matching kid [] = ok []
matching kid (object d ∷ keys) =
    and_then (matching kid keys)
      λ rest. ok (if same_kid kid (get "kid" d) then object d ∷ rest else rest)
matching kid (_ ∷ keys) = err attribute_error

unfoldable pub unique : {F : Type 0} → List (Json F) → Result OidcError (Json F)
unique (key ∷ []) = ok key
unique _ = err (oidc_error "ID token signing key was not uniquely identified")

unfoldable pub algorithm_of : {F : Type 0} → Option (Json F) → Result OidcError String
algorithm_of (some (text a)) =
    if one_of a ("RS256" ∷ "ES256" ∷ [])
    then ok a
    else err (oidc_error "ID token uses an unsupported algorithm")
-- a list or a dict is not hashable
algorithm_of (some (array a)) = err type_error
algorithm_of (some (object d)) = err type_error
algorithm_of _ = err (oidc_error "ID token uses an unsupported algorithm")

abbrev pub is_true : {F : Type 0} → Option (Json F) → Bool
is_true (some (bool b)) = b
is_true _ = false

abbrev pub is_absolute : String → Bool
is_absolute v = starts_with v "https://" || starts_with v "http://"

abbrev pub is_https : String → Bool
is_https v = starts_with v "https://"

abbrev pub all_endpoints : (String → Bool) → ProviderMetadata → Bool
all_endpoints test m = test m.authorization_endpoint && test m.token_endpoint && test m.jwks_uri

module _ {F K Byte : Type 0} (w : Web F K) (settings : Settings F Byte) where
  -- `str(document[key])`
  unfoldable pub endpoint_of : Members F → String → Result OidcError String
  endpoint_of document key = elim (get key document) [
    | none ↦ err (oidc_error "provider metadata is incomplete")
    | some (text s) ↦ ok s
    | some v ↦ ok (w.show v)
  ]

  unfoldable pub endpoints_allowed : ProviderMetadata → Bool
  endpoints_allowed m =
      all_endpoints is_absolute m
      && (is_local settings.runtime.environment || all_endpoints is_https m)

  -- The metadata of a document, or why it is refused.
  unfoldable pub discovered : Members F → Result OidcError ProviderMetadata
  discovered document =
      and_then
        (check (not (equals_text (get "issuer" document) settings.issuer))
          (oidc_error "discovered issuer does not match configured issuer"))
        λ _. and_then (endpoint_of document "authorization_endpoint") λ authorization_endpoint.
          and_then (endpoint_of document "token_endpoint") λ token_endpoint.
            and_then (endpoint_of document "jwks_uri") λ jwks_uri.
              let m : ProviderMetadata = record {
                authorization_endpoint = authorization_endpoint;
                token_endpoint = token_endpoint;
                jwks_uri = jwks_uri;
              } in
              and_then
                (check (not (all_endpoints is_absolute m))
                  (oidc_error "provider endpoints must be absolute HTTP URLs"))
                λ _.
                  and_then
                    (check
                      (not (is_local settings.runtime.environment)
                        && not (all_endpoints is_https m))
                      (oidc_error "provider endpoints must use HTTPS"))
                    λ _. ok m

  unfoldable pub discovered_in : Json F → Result OidcError ProviderMetadata
  discovered_in (object document) = discovered document
  discovered_in _ = err attribute_error

  unfoldable pub fetch : String → Call (Json F)
  fetch url c = (w.get_json url, record c { requests = got url ∷ c.requests })

  unfoldable pub post : String → Dict String → Call (Json F)
  post url data_sent c =
      (w.post_json url data_sent, record c { requests = posted url data_sent ∷ c.requests })

  abbrev pub store : Result OidcError ProviderMetadata → Call ProviderMetadata
  store (ok m) c = (ok m, record c { cached = some m })
  store (err e) c = (err e, c)

  unfoldable pub metadata : Call ProviderMetadata
  metadata c = elim c.cached [
    | some m ↦ (ok m, c)
    | none ↦
        let (response, c') =
          fetch (String.◌++◌ settings.issuer "/.well-known/openid-configuration") c in
        store (and_then response discovered_in) c'
  ]

  unfoldable pub authorization_query : String → String → String → Dict String
  authorization_query state nonce code_challenge =
      ("client_id", settings.client_id)
      ∷ ("redirect_uri", settings.redirect_uri)
      ∷ ("response_type", "code")
      ∷ ("scope", "openid email profile")
      ∷ ("state", state)
      ∷ ("nonce", nonce)
      ∷ ("code_challenge", code_challenge)
      ∷ ("code_challenge_method", "S256")
      ∷ []

  unfoldable pub authorization_url : String → String → String → Call String
  authorization_url state nonce code_challenge c =
      let (found, c') = metadata c in
      (
        and_then found λ m. ok (
            String.◌++◌ m.authorization_endpoint
              (String.◌++◌ "?" (w.urlencode (authorization_query state nonce code_challenge)))),
        c',
      )

  unfoldable pub token_form : String → String → Dict String
  token_form code verifier =
      ("grant_type", "authorization_code")
      ∷ ("code", code)
      ∷ ("redirect_uri", settings.redirect_uri)
      ∷ ("client_id", settings.client_id)
      ∷ ("client_secret", settings.client_secret)
      ∷ ("code_verifier", verifier)
      ∷ []

  unfoldable pub id_token_of : Json F → Result OidcError String
  id_token_of response = and_then (get_of "id_token" response) λ v. elim v [
    | some (text s) ↦ ok s
    | _ ↦ err (oidc_error "token response did not contain an ID token")
  ]

  abbrev pub demands : String → Demands
  demands algorithm = record {
    algorithms = algorithm ∷ [];
    audience = settings.client_id;
    issuer = settings.issuer;
    require = "exp" ∷ "iat" ∷ "iss" ∷ "aud" ∷ "sub" ∷ "nonce" ∷ [];
  }

  unfoldable pub signing_key : Option String → Json F → Result OidcError (Json F)
  signing_key kid jwks =
      and_then (get_of "keys" jwks)
        λ found. and_then (entries found) λ keys. and_then (matching kid keys) unique

  unfoldable pub checked_claims : String → Members F → Result OidcError (Members F)
  checked_claims nonce claims =
      and_then
        (check (not (equals_text (get "nonce" claims) nonce))
          (oidc_error "ID token nonce does not match"))
        λ _.
          and_then
            (check (not (is_true (get "email_verified" claims)))
              (oidc_error "provider email is not verified"))
            λ _. ok claims

  unfoldable pub decoded : String → String → Json F → Result OidcError (Members F)
  decoded id_token algorithm key =
      and_then (w.key_of key) λ k. w.decode id_token k (demands algorithm)

  -- The claims of an ID token, once the keys are there.
  unfoldable pub claims_of : String → String → Json F → Result OidcError (Members F)
  claims_of nonce id_token jwks = and_then (w.header id_token) λ h.
      and_then (algorithm_of h.alg) λ algorithm.
        and_then (signing_key h.kid jwks)
          λ key. and_then (decoded id_token algorithm key) (checked_claims nonce)

  unfoldable pub exchange : String → String → String → Call (Members F)
  exchange code verifier nonce = do
    m ← metadata
    response ← post m.token_endpoint (token_form code verifier)
    id_token ← lift (id_token_of response)
    jwks ← fetch m.jwks_uri
    lift (claims_of nonce id_token jwks)
