-- ===== src/Auth/Repository/Sessions.antt =====
-- services/authentication/pentagon5_auth/repository.py, sessions, their events and their
-- resolution to a principal.
use pentagon5_foundation.Prelude.{
  ℕ, String, Bool, true, false, ◌&&◌, ◌||◌, not, Option, none, some, List, [], ◌∷◌, map, ok, err,
  pure, lift, gets, ◌>>=◌, ◌>>◌, modify, raise_if, ◌==◌, ltb, str_eq, is_none, keep, flat_map,
}
use pentagon5_foundation.Auth.Models.{integrity_error, Principal}
use pentagon5_foundation.Auth.Tables.{
  Db, UserRow, DeviceRow, SessionRow, LinkRow, Query, exists, update_where, one_or_none,
  transaction,
}

unfoldable pub event : ℕ → ℕ → ℕ → String → Query (Unit {0})
event id session_id user_id event_type = do
  db ← gets (λ d. d)
  raise_if
      (exists (λ e. e.id == id) db.events
        || not (exists (λ s. s.id == session_id) db.sessions)
        || not (exists (λ u. u.id == user_id) db.users))
      integrity_error
  modify (λ d. record d {
    events =
        record { id = id; session_id = session_id; user_id = user_id; event_type = event_type }
        ∷ d.events;
  })

unfoldable pub create_session : ℕ → ℕ → ℕ → ℕ → String → ℕ → Query ℕ
create_session session_id event_id user_id device_id fingerprint expires_at = transaction (do
  db ← gets (λ d. d)
  raise_if
      (exists (λ s. s.id == session_id || str_eq s.token_fingerprint fingerprint) db.sessions
        || not (exists (λ u. u.id == user_id) db.users)
        || not (exists (λ d. d.id == device_id) db.devices))
      integrity_error
  modify (λ d. record d {
    sessions =
        record {
          id = session_id;
          user_id = user_id;
          device_id = some device_id;
          token_fingerprint = fingerprint;
          expires_at = expires_at;
          revoked_at = none;
        }
        ∷ d.sessions;
  })
  event event_id session_id user_id "session.created"
  pure session_id)

pub record Joined : Type 0 where
  pub session : SessionRow
  pub user : UserRow
  pub device : Option DeviceRow

abbrev pub id_is : Option ℕ → ℕ → Bool
id_is none id = false
id_is (some n) id = n == id

-- A left join: one row without a device where no device has the id.
abbrev pub or_null : List DeviceRow → List (Option DeviceRow)
or_null [] = none ∷ []
or_null (d ∷ ds) = map some (d ∷ ds)

unfoldable pub join_user : SessionRow → List DeviceRow → UserRow → List Joined
join_user s devices u =
    map (λ d. record { session = s; user = u; device = d })
      (or_null (keep (λ d. id_is s.device_id d.id) devices))

unfoldable pub join_session : List UserRow → List DeviceRow → SessionRow → List Joined
join_session users devices s = flat_map (join_user s devices) (keep (λ u. u.id == s.user_id) users)

unfoldable pub joined : Db → List Joined
joined db = flat_map (join_session db.users db.devices) db.sessions

abbrev pub device_usable : Option DeviceRow → Bool
device_usable none = true
device_usable (some d) = is_none d.revoked_at

unfoldable pub session_usable : SessionRow → ℕ → Bool
session_usable s now = is_none s.revoked_at && ltb now s.expires_at

unfoldable pub resolves : String → ℕ → Joined → Bool
resolves fingerprint now j =
    str_eq j.session.token_fingerprint fingerprint
    && session_usable j.session now
    && str_eq j.user.status "active"
    && device_usable j.device

unfoldable pub role_names : ℕ → Db → List String
role_names user_id db =
    flat_map
      (λ r.
        map (λ (l : LinkRow). r.name)
          (keep (λ ur. ur.target == r.id && ur.source == user_id) db.user_roles))
      db.roles

unfoldable pub permission_codes : ℕ → Db → List String
permission_codes user_id db =
    flat_map
      (λ p.
        flat_map
          (λ rp.
            map (λ (l : LinkRow). p.name)
              (keep (λ ur. ur.target == rp.source && ur.source == user_id) db.user_roles))
          (keep (λ rp. rp.target == p.id) db.role_permissions))
      db.permissions

-- `order_by_name` is the database's `ORDER BY r.name` under its collation.
unfoldable pub principal : (List String → List String) → Db → Joined → Principal
principal order_by_name db j = record {
  user_id = j.session.user_id;
  session_id = j.session.id;
  device_id = j.session.device_id;
  email = j.user.email;
  display_name = j.user.display_name;
  roles = order_by_name (role_names j.session.user_id db);
  permissions = permission_codes j.session.user_id db;
  expires_at = j.session.expires_at;
}

unfoldable pub resolve_session : (List String → List String) → String → ℕ → Query (Option Principal)
resolve_session order_by_name fingerprint now db =
    let rows = keep (resolves fingerprint now) (joined db) in
    elim (one_or_none rows) [
      | ok none ↦ (ok none, db)
      | ok (some j) ↦ (ok (some (principal order_by_name db j)), db)
      | err e ↦ (err e, db)
    ]

unfoldable pub revoke_matches : ℕ → SessionRow → Bool
revoke_matches id s = s.id == id && is_none s.revoked_at

unfoldable pub revoke_event : ℕ → ℕ → Option SessionRow → Query (Unit {0})
revoke_event event_id session_id none = pure tt
revoke_event event_id session_id (some s) = event event_id session_id s.user_id "session.revoked"

unfoldable pub revoke_session : ℕ → ℕ → ℕ → Query (Unit {0})
revoke_session event_id session_id now = transaction (do
  rows ← gets (λ d. keep (revoke_matches session_id) d.sessions)
  modify (λ d. record d {
    sessions =
        update_where (revoke_matches session_id) (λ s. record s { revoked_at = some now })
          d.sessions;
  })
  row ← lift (one_or_none rows)
  revoke_event event_id session_id row)

unfoldable pub device_matches : ℕ → ℕ → DeviceRow → Bool
device_matches user_id device_id d =
    d.id == device_id && d.user_id == user_id && is_none d.revoked_at

unfoldable pub on_device : ℕ → SessionRow → Bool
on_device device_id s = id_is s.device_id device_id && is_none s.revoked_at

-- The sessions of a device that has been revoked.
unfoldable pub revoke_sessions : ℕ → ℕ → Option DeviceRow → Query Bool
revoke_sessions device_id now none = pure false
revoke_sessions device_id now (some d) = do
  modify (λ db. record db {
    sessions =
        update_where (on_device device_id) (λ s. record s { revoked_at = some now }) db.sessions;
  })
  pure true

unfoldable pub revoke_device : ℕ → ℕ → ℕ → Query Bool
revoke_device user_id device_id now = transaction (do
  rows ← gets (λ db. keep (device_matches user_id device_id) db.devices)
  modify (λ db. record db {
    devices =
        update_where (device_matches user_id device_id)
          (λ d. record d { revoked_at = some now; updated_at = now }) db.devices;
  })
  changed ← lift (one_or_none rows)
  revoke_sessions device_id now changed)
