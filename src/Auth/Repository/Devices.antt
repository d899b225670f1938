-- ===== src/Auth/Repository/Devices.antt =====
-- services/authentication/pentagon5_auth/repository.py, identities and devices.
use Prim.Native.String
use pentagon5_foundation.Prelude.{
  ℕ, String, Bool, ◌&&◌, ◌||◌, not, Option, none, some, List, [], ◌∷◌, map, pure, lift, gets, ◌>>=◌,
  ◌>>◌, modify, raise_if, ◌==◌, ltb, str_eq, keep, if◌then◌else◌,
}
use pentagon5_foundation.Auth.Models.{integrity_error, data_error, Identity, Device}
use pentagon5_foundation.Auth.Tables.{
  DeviceRow, IdentityRow, Query, exists, update_where, one_or_none, scalar_one, transaction,
}

-- Whether a text is too long for a column `String(n)`; PostgreSQL counts characters. That it cuts an
-- excess of spaces off is left aside.
abbrev pub too_long : ℕ → String → Bool
too_long n s = ltb n (String.count s)

-- Whether a row of `users` would have a text that is too long.
abbrev pub profile_too_long : Identity → Bool
profile_too_long identity = too_long 320 identity.email || too_long 120 identity.display_name

-- The branch of `provision_identity` for an identity that is not known.
unfoldable pub insert_identity : ℕ → ℕ → ℕ → Identity → Query ℕ
insert_identity user_id identity_id db_now identity = do
  db ← gets (λ d. d)
  raise_if (profile_too_long identity) data_error
  raise_if (exists (λ u. u.id == user_id || str_eq u.email identity.email) db.users) integrity_error
  modify (λ d. record d {
    users =
        record {
          id = user_id;
          email = identity.email;
          display_name = identity.display_name;
          status = "active";
          updated_at = db_now;
        }
        ∷ d.users;
  })
  raise_if (too_long 512 identity.issuer || too_long 512 identity.subject) data_error
  raise_if (exists (λ i. i.id == identity_id) db.identities) integrity_error
  modify (λ d. record d {
    identities =
        record {
          id = identity_id;
          user_id = user_id;
          issuer = identity.issuer;
          subject = identity.subject;
        }
        ∷ d.identities;
  })
  pure user_id

-- The branch for a known identity: an active user takes the email and the name over.
unfoldable pub update_user : ℕ → ℕ → Identity → Query ℕ
update_user user_id db_now identity = do
  db ← gets (λ d. d)
  raise_if
      (exists (λ u. u.id == user_id && str_eq u.status "active") db.users
        && profile_too_long identity)
      data_error
  raise_if
      (exists (λ u. u.id == user_id && str_eq u.status "active") db.users
        && exists (λ u. not (u.id == user_id) && str_eq u.email identity.email) db.users)
      integrity_error
  modify (λ d. record d {
    users =
        update_where (λ u. u.id == user_id && str_eq u.status "active")
          (λ u. record u {
            email = identity.email;
            display_name = identity.display_name;
            updated_at = db_now;
          })
          d.users;
  })
  pure user_id

unfoldable pub provision_known : ℕ → ℕ → ℕ → Identity → Option IdentityRow → Query ℕ
provision_known user_id identity_id db_now identity none =
    insert_identity user_id identity_id db_now identity
provision_known user_id identity_id db_now identity (some i) = update_user i.user_id db_now identity

unfoldable pub provision_identity : ℕ → ℕ → ℕ → Identity → Query ℕ
provision_identity user_id identity_id db_now identity = transaction (do
  rows ← gets (λ d.
      keep (λ i. str_eq i.issuer identity.issuer && str_eq i.subject identity.subject) d.identities)
  existing ← lift (one_or_none rows)
  provision_known user_id identity_id db_now identity existing)

unfoldable pub same_device : ℕ → String → DeviceRow → Bool
same_device user_id key d = d.user_id == user_id && str_eq d.device_key key

-- The `DO UPDATE` of the upsert.
unfoldable pub refreshed_device : String → ℕ → ℕ → DeviceRow → DeviceRow
refreshed_device platform now db_now d = record d {
  platform = platform;
  last_seen_at = some now;
  revoked_at = none;
  updated_at = db_now;
}

-- The upsert: it updates the rows in conflict, or inserts one; the ids of those rows come back.
unfoldable pub upsert_device : ℕ → ℕ → ℕ → String → String → ℕ → List DeviceRow → Query (List ℕ)
upsert_device id db_now user_id key platform now [] = do
  db ← gets (λ d. d)
  raise_if (exists (λ d. d.id == id) db.devices || not (exists (λ u. u.id == user_id) db.users))
      integrity_error
  modify (λ d. record d {
    devices =
        record {
          id = id;
          user_id = user_id;
          device_key = key;
          platform = platform;
          last_seen_at = some now;
          revoked_at = none;
          created_at = db_now;
          updated_at = db_now;
        }
        ∷ d.devices;
  })
  pure (id ∷ [])
upsert_device id db_now user_id key platform now (c ∷ cs) = do
  modify (λ d. record d {
    devices =
        update_where (same_device user_id key) (refreshed_device platform now db_now) d.devices;
  })
  pure (map (λ d. d.id) (c ∷ cs))

unfoldable pub register_device : ℕ → ℕ → ℕ → String → String → ℕ → Query ℕ
register_device id db_now user_id key platform now = transaction (do
  conflicts ← gets (λ d. keep (same_device user_id key) d.devices)
  ids ← upsert_device id db_now user_id key platform now conflicts
  lift (scalar_one ids))

-- `ORDER BY created_at DESC`; rows of one time keep their order.
unfoldable pub insert_newest : DeviceRow → List DeviceRow → List DeviceRow
insert_newest d [] = d ∷ []
insert_newest d (e ∷ es) =
    if ltb d.created_at e.created_at then e ∷ insert_newest d es else d ∷ e ∷ es

unfoldable pub newest_first : List DeviceRow → List DeviceRow
newest_first [] = []
newest_first (d ∷ ds) = insert_newest d (newest_first ds)

unfoldable pub list_devices : ℕ → Query (List Device)
list_devices user_id = gets (λ db.
    map
      (λ d. record {
        id = d.id;
        platform = d.platform;
        last_seen_at = d.last_seen_at;
        revoked_at = d.revoked_at;
      })
      (newest_first (keep (λ d. d.user_id == user_id) db.devices)))
