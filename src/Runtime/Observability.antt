-- ===== src/Runtime/Observability.antt =====
-- backend/pentagon5_runtime/observability.py: the middleware `observe` of `instrument`. The application
-- behind it is a tree of what it does; the identifiers and the text of the clock are arguments.
pub mod Bounds
pub mod Responses
mod Tests
use pentagon5_foundation.Prelude.{
  ℕ, ◌+◌, String, Bool, true, false, ◌&&◌, ◌||◌, not, Option, none, some, List, [], ◌∷◌, Result, ok,
  err, and_then, check, str_eq, leb, ltb, if◌then◌else◌,
}
use pentagon5_foundation.Prelude.Int.{ℤ, pos, negsuc}
use pentagon5_foundation.Prelude.Json.{Members}
use pentagon5_foundation.Runtime.Config.{RuntimeSettings}
use pentagon5_foundation.Runtime.Envelopes.{error_envelope}
use pentagon5_foundation.Runtime.Uuid7.Text.{Uuids, is_uuid7}

-- `BodyTooLargeError`, `TimeoutError` and any other `Exception`.
pub data Raised : Type 0 where
  body_too_large timed_out other_error : Raised

-- A body of the application, or the JSON of an error.
pub data Body (F B : Type 0) : Type 0 where
  of_app : B → Body F B
  json : Members F → Body F B

pub record Response (F B : Type 0) : Type 0 where
  pub status_code : ℕ
  pub body : Body F B

-- What the application does with a request: it asks for the next part of the body, which is given by
-- its length, or none where the call raises `BodyTooLargeError`; or it ends.
pub data App (B : Type 0) : Type 0 where
  responds : ℕ → B → App B
  raises : Raised → App B
  reads : (Option ℕ → App B) → App B

pub record Request : Type 0 where
  pub method : String
  pub request_id : Option String
  pub content_length : Option String
  pub origin : Option String

-- The labels of the counter.
pub record Labels : Type 0 where
  pub service : String
  pub request_method : String
  pub route : String
  pub status : ℕ

pub record Observed (F B : Type 0) : Type 0 where
  pub response : Response F B
  pub response_id : String
  pub counted : Labels

-- `value and ...` of a header: an empty text counts as missing.
abbrev pub is_given : Option String → Bool
is_given none = false
is_given (some s) = not (str_eq s "")

-- `int(content_length) > maximum`
abbrev pub exceeds : ℕ → ℤ → Bool
exceeds maximum (pos n) = ltb maximum n
exceeds maximum (negsuc n) = false

unfoldable pub correlation_of : Uuids → Option String → String → String
correlation_of uuids none fresh = if is_uuid7 uuids "" then "" else fresh
correlation_of uuids (some supplied) fresh = if is_uuid7 uuids supplied then supplied else fresh

-- `parse_int` is Python's `int`, none where it raises.
unfoldable pub declared : (String → Option ℤ) → ℕ → Option String → Result Raised (Unit {0})
declared parse_int maximum none = ok tt
declared parse_int maximum (some text) = if str_eq text "" then ok tt else elim (parse_int text) [
  | none ↦ err other_error
  | some n ↦ check (exceeds maximum n) body_too_large
]

-- `json_id` and `now` go into an error's envelope.
module _ {F B : Type 0} (uuids : Uuids) (parse_int : String → Option ℤ)
    (settings : RuntimeSettings F) where
  -- `limited_receive`, at each call of the application. Without a further part the length is 0.
  unfoldable pub serve : ℕ → List ℕ → App B → Result Raised (Response F B)
  serve received parts (responds status body) =
      ok (record { status_code = status; body = of_app body })
  serve received parts (raises e) = err e
  serve received [] (reads k) =
      if ltb settings.max_body_bytes received
      then serve received [] (k none)
      else serve received [] (k (some 0))
  serve received (n ∷ parts) (reads k) =
      if ltb settings.max_body_bytes (received + n)
      then serve (received + n) parts (k none)
      else serve (received + n) parts (k (some n))

  unfoldable pub error_json : String → String → String → ℕ → String → String → Bool → Response F B
  error_json json_id now correlation_id status_code error_code error_message retryable = record {
    status_code = status_code;
    body = json (error_envelope json_id now correlation_id error_code error_message retryable none);
  }

  -- A preflight request that the CORS middleware refuses.
  abbrev pub is_denied : Request → Response F B → Bool
  is_denied request r =
      str_eq request.method "OPTIONS" && is_given request.origin && leb 400 r.status_code

  unfoldable pub answered :
      String → String → String → Request → Result Raised (Response F B) → Response F B
  answered json_id now correlation_id request (ok r) =
      if is_denied request r
      then error_json json_id now correlation_id 400 "CORS_ORIGIN_DENIED"
          "Cross-origin request is not allowed" false
      else r
  answered json_id now correlation_id request (err body_too_large) =
      error_json json_id now correlation_id 413 "REQUEST_BODY_TOO_LARGE"
        "Request body exceeds the configured limit" false
  answered json_id now correlation_id request (err timed_out) =
      error_json json_id now correlation_id 504 "REQUEST_TIMEOUT" "Request processing timed out"
        true
  answered json_id now correlation_id request (err other_error) =
      error_json json_id now correlation_id 500 "INTERNAL_ERROR" "An internal error occurred" true

  unfoldable pub observe :
      String → String → String → String → Request → List ℕ → App B → Observed F B
  observe fresh json_id now route request parts app =
      let correlation_id = correlation_of uuids request.request_id fresh in
      let response = answered json_id now correlation_id request (
        and_then (declared parse_int settings.max_body_bytes request.content_length)
          λ _. serve 0 parts app) in
      record {
        response = response;
        response_id = correlation_id;
        counted = record {
          service = settings.service_name;
          request_method = request.method;
          route = route;
          status = response.status_code;
        };
      }
