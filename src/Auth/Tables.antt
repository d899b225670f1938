-- ===== src/Auth/Tables.antt =====
-- The tables of the schema `identity` (infrastructure/database/metadata.py) with the columns that
-- the repository reads or writes, and SQL statements over a table as functions on lists of rows.
pub mod Laws
use pentagon5_foundation.Prelude.{
  ℕ, String, Bool, true, false, ◌&&◌, ◌||◌, Option, none, some, List, [], ◌∷◌, Result, ok, err,
  Exec, ◌==◌, ltb, str_eq, if◌then◌else◌,
}
use pentagon5_foundation.Auth.Models.{Error, multiple_results, no_result}

pub record UserRow : Type 0 where
  pub id : ℕ
  pub email : String
  pub display_name : String
  pub status : String
  pub updated_at : ℕ

pub record DeviceRow : Type 0 where
  pub id : ℕ
  pub user_id : ℕ
  pub device_key : String
  pub platform : String
  pub last_seen_at : Option ℕ
  pub revoked_at : Option ℕ
  pub created_at : ℕ
  pub updated_at : ℕ

pub record SessionRow : Type 0 where
  pub id : ℕ
  pub user_id : ℕ
  pub device_id : Option ℕ
  pub token_fingerprint : String
  pub expires_at : ℕ
  pub revoked_at : Option ℕ

pub record IdentityRow : Type 0 where
  pub id : ℕ
  pub user_id : ℕ
  pub issuer : String
  pub subject : String

pub record FlowRow : Type 0 where
  pub id : ℕ
  pub state_fingerprint : String
  pub encrypted_payload : String
  pub redirect_uri : String
  pub expires_at : ℕ

pub record GrantRow : Type 0 where
  pub id : ℕ
  pub code_fingerprint : String
  pub encrypted_payload : String
  pub expires_at : ℕ

pub record TicketRow : Type 0 where
  pub id : ℕ
  pub ticket_fingerprint : String
  pub session_id : ℕ
  pub channel : String
  pub expires_at : ℕ

pub record EventRow : Type 0 where
  pub id : ℕ
  pub session_id : ℕ
  pub user_id : ℕ
  pub event_type : String

-- A row of `roles` or of `permissions`: its id, and its name or code.
pub record NamedRow : Type 0 where
  pub id : ℕ
  pub name : String

-- A row of `user_roles` (user, role) or of `role_permissions` (role, permission).
pub record LinkRow : Type 0 where
  pub source : ℕ
  pub target : ℕ

pub record Db : Type 0 where
  pub users : List UserRow
  pub devices : List DeviceRow
  pub sessions : List SessionRow
  pub identities : List IdentityRow
  pub flows : List FlowRow
  pub grants : List GrantRow
  pub tickets : List TicketRow
  pub events : List EventRow
  pub roles : List NamedRow
  pub permissions : List NamedRow
  pub user_roles : List LinkRow
  pub role_permissions : List LinkRow

module _ {ℓ} {A : Type ℓ} where
  -- Whether a row passes a test.
  unfoldable pub exists : (A → Bool) → List A → Bool
  exists p [] = false
  exists p (x ∷ xs) = p x || exists p xs

  -- `DELETE … WHERE`: the rows that fail the test stay.
  unfoldable pub delete_where : (A → Bool) → List A → List A
  delete_where p [] = []
  delete_where p (x ∷ xs) = let rest = delete_where p xs in if p x then rest else x ∷ rest

  -- `UPDATE … SET … WHERE`
  unfoldable pub update_where : (A → Bool) → (A → A) → List A → List A
  update_where p f [] = []
  update_where p f (x ∷ xs) = (if p x then f x else x) ∷ update_where p f xs

abbrev pub Query : Type 0 → Type 0
Query A = Exec Error Db A

module _ {A : Type 0} where
  -- `one_or_none()`, `scalar_one_or_none()`
  unfoldable pub one_or_none : List A → Result Error (Option A)
  one_or_none [] = ok none
  one_or_none (x ∷ []) = ok (some x)
  one_or_none (x ∷ y ∷ xs) = err multiple_results

  -- `scalar_one()`
  unfoldable pub scalar_one : List A → Result Error A
  scalar_one [] = err no_result
  scalar_one (x ∷ []) = ok x
  scalar_one (x ∷ y ∷ xs) = err multiple_results

  -- `with engine.begin()`: an exception rolls the transaction back.
  abbrev pub transaction : Query A → Query A
  transaction m s = let (r, s') = m s in elim r [ ok a ↦ (ok a, s') | err e ↦ (err e, s) ]
