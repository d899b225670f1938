-- ===== src/Runtime/Config.antt =====
-- backend/pentagon5_runtime/config.py: the settings that all processes share. What the code takes
-- from files, from `urllib.parse` and from the methods of `str` and `float` is a parameter.
pub mod Loaded
use Prim.Native.String
use text.Mathlib.Text.{starts_with}
use pentagon5_foundation.Prelude.{
  ℕ, String, Bool, true, false, ◌&&◌, ◌||◌, not, Option, none, some, List, [], ◌∷◌, ◌++◌, map,
  Result, ok, err, and_then, check, str_eq, one_of, keep, if◌then◌else◌,
}
use pentagon5_foundation.Prelude.Dict.{Dict, lookup}

pub record Url : Type 0 where
  pub scheme : String
  pub netloc : String
  pub path : String
  pub params : String
  pub query : String
  pub fragment : String

-- A `ConfigurationError`, and any other exception: of a file that cannot be read or a malformed URL.
pub data ConfigError : Type 0 where
  configuration_error : String → ConfigError
  other_error : ConfigError

-- `F` stands for `float`; `le` is its `<=`, which is false on NaN, and `truncate` is `int`.
pub record Reading (F : Type 0) : Type 0 where
  pub is_file : String → Bool
  pub read_text : String → Result ConfigError String
  pub urlparse : String → Result ConfigError Url
  pub upper : String → String
  pub lower : String → String
  pub strip : String → String
  pub rstrip_slash : String → String
  pub split_comma : String → List String
  pub sorted : List String → List String
  pub join_comma : List String → String
  pub without_newline : String → String
  pub parse_float : String → Option F
  pub of_ℕ : ℕ → F
  pub le : F → F → Bool
  pub truncate : F → ℕ

pub record RuntimeSettings (F : Type 0) : Type 0 where
  pub service_name : String
  pub environment : String
  pub database_url : String
  pub log_level : String
  pub otlp_endpoint : Option String
  pub cors_origins : List String
  pub max_body_bytes : ℕ
  pub request_timeout_seconds : F

abbrev pub known_keys : List String
known_keys =
    "P5_DATABASE_URL" ∷ "P5_DATABASE_URL_FILE" ∷ "P5_ENVIRONMENT" ∷ "P5_LOG_LEVEL"
    ∷ "P5_CORS_ORIGINS" ∷ "P5_MAX_BODY_BYTES" ∷ "P5_OTLP_ENDPOINT" ∷ "P5_REQUEST_TIMEOUT_SECONDS"
    ∷ "P5_SERVICE_NAME" ∷ []

abbrev pub environments : List String
environments = "development" ∷ "test" ∷ "staging" ∷ "production" ∷ []

abbrev pub log_levels : List String
log_levels = "DEBUG" ∷ "INFO" ∷ "WARNING" ∷ "ERROR" ∷ "CRITICAL" ∷ []

-- `value if value else none`: an empty text counts as missing.
abbrev pub given : Option String → Option String
given none = none
given (some s) = if str_eq s "" then none else some s

abbrev pub get_or : Dict String → String → String → String
get_or values key default = elim (lookup key values) [ none ↦ default | some v ↦ v ]

unfoldable pub keys : Dict String → List String
keys [] = []
keys ((k, v) ∷ d) = k ∷ keys d

unfoldable pub unknown_keys : List String → Dict String → List String
unknown_keys allowed_extra values =
    keep (λ k. starts_with k "P5_" && not (one_of k known_keys || one_of k allowed_extra))
      (keys values)

abbrev pub is_empty : List String → Bool
is_empty [] = true
is_empty (s ∷ ss) = false

module _ {F : Type 0} (r : Reading F) where
  unfoldable pub secret_text : String → Option String → Option String → Result ConfigError String
  secret_text name (some direct) (some file) = err (
      configuration_error
        (String.◌++◌ name (String.◌++◌ " and " (String.◌++◌ name "_FILE are mutually exclusive"))))
  secret_text name direct (some file) =
      and_then
        (check (not (r.is_file file))
          (configuration_error (String.◌++◌ name "_FILE does not reference a regular file")))
        λ _. and_then (r.read_text file) λ content. ok (r.without_newline content)
  secret_text name (some direct) none = ok direct
  secret_text name none none = ok ""

  unfoldable pub secret_value : String → Dict String → Result ConfigError String
  secret_value name values =
      and_then
        (secret_text name (given (lookup name values))
          (given (lookup (String.◌++◌ name "_FILE") values)))
        λ value.
          and_then (check (str_eq value "") (configuration_error (String.◌++◌ name " is required")))
            λ _. ok value

  -- `bounds` is the text of the two bounds in the message.
  unfoldable pub bounded_number :
      Dict String → String → String → ℕ → ℕ → String → Result ConfigError F
  bounded_number values name default minimum maximum bounds =
      elim (r.parse_float (get_or values name default)) [
        | none ↦ err (configuration_error (String.◌++◌ name " must be numeric"))
        | some value ↦
            and_then
              (check (not (r.le (r.of_ℕ minimum) value && r.le value (r.of_ℕ maximum)))
                (configuration_error (String.◌++◌ name (String.◌++◌ " must be between " bounds))))
              λ _. ok value
      ]

  unfoldable pub is_exact_origin : String → Url → Bool
  is_exact_origin origin u =
      not (str_eq origin "*")
      && one_of u.scheme ("http" ∷ "https" ∷ [])
      && not (str_eq u.netloc "")
      && one_of u.path ("" ∷ "/" ∷ [])
      && str_eq u.params ""
      && str_eq u.query ""
      && str_eq u.fragment ""

  unfoldable pub origins_of : Dict String → List String
  origins_of values =
      keep (λ o. not (str_eq o ""))
        (map r.strip (r.split_comma (get_or values "P5_CORS_ORIGINS" "")))

  -- All origins are parsed before one is looked at.
  unfoldable pub parsed_origins : List String → Result ConfigError (List (String × Url))
  parsed_origins [] = ok []
  parsed_origins (o ∷ os) =
      let rest = parsed_origins os in
      and_then (r.urlparse o) λ u. and_then rest λ us. ok ((o, u) ∷ us)

  unfoldable pub all_exact : List (String × Url) → Bool
  all_exact [] = true
  all_exact ((o, u) ∷ us) = is_exact_origin o u && all_exact us

  unfoldable pub load_runtime_settings :
      Dict String → List String → Result ConfigError (RuntimeSettings F)
  load_runtime_settings values allowed_extra =
      let unknown = r.sorted (unknown_keys allowed_extra values) in
      let environment = get_or values "P5_ENVIRONMENT" "production" in
      let log_level = r.upper (get_or values "P5_LOG_LEVEL" "INFO") in
      let service_name = r.strip (get_or values "P5_SERVICE_NAME" "") in
      let origins = origins_of values in
      and_then
        (check (not (is_empty unknown))
          (configuration_error (String.◌++◌ "unknown PENTAGON5 settings: " (r.join_comma unknown))))
        λ _.
          and_then
            (check (not (one_of environment environments)) (
              configuration_error
                "P5_ENVIRONMENT must be development, test, staging, or production"))
            λ _. and_then (secret_value "P5_DATABASE_URL" values) λ database_url.
              and_then (r.urlparse database_url) λ url.
                and_then
                  (check (not (one_of url.scheme ("postgresql" ∷ "postgresql+psycopg" ∷ [])))
                    (configuration_error "P5_DATABASE_URL must use PostgreSQL"))
                  λ _.
                    and_then
                      (check (not (one_of log_level log_levels))
                        (configuration_error "P5_LOG_LEVEL is invalid"))
                      λ _.
                        and_then
                          (check (str_eq service_name "")
                            (configuration_error "P5_SERVICE_NAME is required"))
                          λ _. and_then (parsed_origins origins) λ parsed.
                            and_then
                              (check (not (all_exact parsed)) (
                                configuration_error
                                  "P5_CORS_ORIGINS must contain exact HTTP(S) origins"))
                              λ _.
                                and_then
                                  (bounded_number values "P5_MAX_BODY_BYTES" "1048576" 1024 10485760
                                    "1024 and 1.04858e+07")
                                  λ max_body.
                                    and_then
                                      (bounded_number values "P5_REQUEST_TIMEOUT_SECONDS" "15" 1 60
                                        "1 and 60")
                                      λ request_timeout. ok (record {
                                        service_name = service_name;
                                        environment = environment;
                                        database_url = database_url;
                                        log_level = log_level;
                                        otlp_endpoint = given (lookup "P5_OTLP_ENDPOINT" values);
                                        cors_origins = origins;
                                        max_body_bytes = r.truncate max_body;
                                        request_timeout_seconds = request_timeout;
                                      })
