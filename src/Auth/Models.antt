-- ===== src/Auth/Models.antt =====
-- services/authentication/pentagon5_auth/models.py: the domain models, and the exceptions of the
-- service and of the libraries it calls. A `uuid.UUID` is its number, a `datetime` a number of
-- microseconds, and a frozenset of texts a list that is only asked for membership.
use pentagon5_foundation.Prelude.{ℕ, String, Option, List}

pub data Error : Type 0 where
  authentication_error : String → Error
  permission_denied : String → Error
  oidc_error : String → Error
  value_error : String → Error
  -- a unique, foreign-key or check constraint of the database
  integrity_error : Error
  -- a text that is too long for its column
  data_error : Error
  -- `MultipleResultsFound` and `NoResultFound`
  multiple_results no_result : Error
  http_error : Error

pub record Flow : Type 0 where
  pub encrypted_payload : String
  pub redirect_uri : String

pub record Identity : Type 0 where
  pub issuer : String
  pub subject : String
  pub email : String
  pub display_name : String

pub record Principal : Type 0 where
  pub user_id : ℕ
  pub session_id : ℕ
  pub device_id : Option ℕ
  pub email : String
  pub display_name : String
  pub roles : List String
  pub permissions : List String
  pub expires_at : ℕ

pub record SessionGrant : Type 0 where
  pub token : String
  pub principal : Principal

pub record LoginRedirect : Type 0 where
  pub code : String
  pub redirect_uri : String

pub record Device : Type 0 where
  pub id : ℕ
  pub platform : String
  pub last_seen_at : Option ℕ
  pub revoked_at : Option ℕ
