-- ===== src/Auth/Repository/Revocation.antt =====
-- services/authentication/pentagon5_auth/repository.py: what `resolve_session` accepts, and what
-- revoking a session or a device leaves to accept.
use pentagon5_foundation.Prelude.{
  Bool-cases, ℕ, String, str_eq, Bool, true, false, ◌&&◌, ◌==◌, ◌≡◌, refl, sym, ◌∙◌, subst, Option,
  none, some, List, [], ◌∷◌, map, Result, ok, err, keep, arith, inl, inr, Result-cases, All,
  All-keep, All-keep_self, All-flat_map,
}
use pentagon5_foundation.Auth.Models.{Error, Principal}
use pentagon5_foundation.Auth.Tables.{
  Db, UserRow, DeviceRow, SessionRow, exists, update_where, one_or_none,
}
use pentagon5_foundation.Auth.Tables.Laws.{one_or_none-All}
use pentagon5_foundation.Auth.Repository.Devices.{register_device, upsert_device}
use pentagon5_foundation.Auth.Repository.Sessions.{
  Joined, or_null, join_user, join_session, joined, session_usable, resolves, principal,
  resolve_session, event, revoke_event, revoke_matches, revoke_session, revoke_sessions,
  revoke_device, on_device, id_is,
}

-- What holds of every session holds of the sessions of the joined rows.
module _ (P : SessionRow → Type 0) where
  abbrev OnSession : Joined → Type 0
  OnSession j = P j.session

  All-with_device :
      (s : SessionRow) (u : UserRow)
      → P s
      → (ds : List (Option DeviceRow))
      → All OnSession (map (λ d. record { session = s; user = u; device = d }) ds)
  All-with_device s u h [] = tt
  All-with_device s u h (d ∷ ds) = (h, All-with_device s u h ds)

  All-join_session :
      (users : List UserRow) (devices : List DeviceRow) (s : SessionRow)
      → P s
      → All OnSession (join_session users devices s)
  unfolding join_session join_user
  All-join_session users devices s h =
      All-flat_map (λ u. (u.id == s.user_id) ≡ true) OnSession (join_user s devices)
        (keep (λ u. u.id == s.user_id) users)
        (λ u k. All-with_device s u h (or_null (keep (λ d. id_is s.device_id d.id) devices)))
        (All-keep_self (λ u. u.id == s.user_id) users)

  pub All-joined : (db : Db) → All P db.sessions → All OnSession (joined db)
  unfolding joined
  All-joined db =
      All-flat_map P OnSession (join_session db.users db.devices) db.sessions
        (All-join_session db.users db.devices)

module _ (order_by_name : List String → List String) (fingerprint : String) (now : ℕ)
    (db : Db) where
  abbrev pub resolved : Result Error (Option Principal)
  resolved = (resolve_session order_by_name fingerprint now db).0

  resolve_session_lem :
      {r : Option Joined}
      → one_or_none (keep (resolves fingerprint now) (joined db)) ≡ ok r
      → resolved ≡ ok (elim r [ none ↦ none | some j ↦ some (principal order_by_name db j) ])
  unfolding resolve_session
  resolve_session_lem {r = none} h = ground arith
  resolve_session_lem {r = some j} h = ground arith

  resolve_session_err :
      {e : Error}
      → one_or_none (keep (resolves fingerprint now) (joined db)) ≡ err e
      → resolved ≡ err e
  unfolding resolve_session
  resolve_session_err h = ground arith

  -- The row that a principal comes from.
  resolved_row :
      {p : Principal}
      → resolved ≡ ok (some p)
      → (j : Joined) × (one_or_none (keep (resolves fingerprint now) (joined db)) ≡ ok (some j))
        × (principal order_by_name db j ≡ p)
  resolved_row e = elim (Result-cases (one_or_none (keep (resolves fingerprint now) (joined db)))) [
    | inl (none, h) ↦ cc (resolve_session_lem h, e)
    | inl (some j, h) ↦ let same = sym (resolve_session_lem h) ∙ e in (j, h, ground arith)
    | inr (x, h) ↦ cc (resolve_session_err h, e)
  ]

  -- Where no session of a kind is usable, no principal has a session of that kind.
  pub none_resolves :
      (kind : ℕ → Option ℕ → Bool)
      → All (λ s. (kind s.id s.device_id && session_usable s now) ≡ false) db.sessions
      → {p : Principal} → resolved ≡ ok (some p)
      → kind p.session_id p.device_id ≡ false
  unfolding resolves principal
  none_resolves kind h e =
      let (j, row, same) = resolved_row e in
      let usable =
        one_or_none-All (λ j. resolves fingerprint now j ≡ true) _
          (All-keep_self (resolves fingerprint now) (joined db)) row in
      let other =
        one_or_none-All
          (λ j. (kind j.session.id j.session.device_id && session_usable j.session now) ≡ false) _
          (All-keep _ (resolves fingerprint now) (joined db)
            (All-joined (λ s. (kind s.id s.device_id && session_usable s now) ≡ false) db h))
          row in
      subst (λ p. kind p.session_id p.device_id ≡ false) same (ground arith)

All-update_where :
    (P : SessionRow → Type 0) (p : SessionRow → Bool) (f : SessionRow → SessionRow)
    (ss : List SessionRow)
    → ((s : SessionRow) → p s ≡ true → P (f s))
    → ((s : SessionRow) → p s ≡ false → P s)
    → All P (update_where p f ss)
unfolding update_where
All-update_where P p f [] h k = tt
All-update_where P p f (s ∷ ss) h k = ground (arith, h s, k s, All-update_where P p f ss h k)

register_device-sessions :
    (id db_now user_id : ℕ) (key platform : String) (now : ℕ) (db : Db)
    → (register_device id db_now user_id key platform now db).1.sessions ≡ db.sessions
unfolding register_device upsert_device
register_device-sessions id db_now user_id key platform now db = ground arith

revoked_unusable :
    (s : SessionRow) (now later : ℕ)
    → session_usable (record s { revoked_at = some now }) later ≡ false
unfolding session_usable
revoked_unusable s now later = refl

module _ (event_id id now : ℕ) (db : Db) where
  revoked_state :
      (revoke_session event_id id now db).0 ≡ ok tt
      → (revoke_session event_id id now db).1.sessions
        ≡ update_where (revoke_matches id) (λ s. record s { revoked_at = some now }) db.sessions
  unfolding revoke_session revoke_event event
  revoked_state e = ground arith

  revoked_sessions :
      (later : ℕ)
      → All
          (λ s. (s.id == id && session_usable s later) ≡ false)
          (update_where (revoke_matches id) (λ s. record s { revoked_at = some now }) db.sessions)
  unfolding revoke_matches session_usable
  revoked_sessions later =
      All-update_where _ (revoke_matches id) (λ s. record s { revoked_at = some now }) db.sessions
        (λ s h. ground (arith, revoked_unusable s now later)) (λ s h. ground arith)

  -- After a call of `revoke_session` that returned, no token resolves to a principal with that
  -- session, at any time.
  pub revoke_session_final :
      (order_by_name : List String → List String) (fingerprint : String) (later : ℕ) {p : Principal}
      → (revoke_session event_id id now db).0 ≡ ok tt
      → resolved order_by_name fingerprint later (revoke_session event_id id now db).1 ≡ ok (some p)
      → (p.session_id == id) ≡ false
  revoke_session_final order_by_name fingerprint later h e =
      none_resolves order_by_name fingerprint later (revoke_session event_id id now db).1
        (λ i d. i == id) (rw (revoked_state h) (revoked_sessions later)) e

module _ (user_id device_id now : ℕ) (db : Db) where
  device_state :
      (revoke_device user_id device_id now db).0 ≡ ok true
      → (revoke_device user_id device_id now db).1.sessions
        ≡ update_where (on_device device_id) (λ s. record s { revoked_at = some now }) db.sessions
  unfolding revoke_device revoke_sessions
  device_state e = ground arith

  device_sessions :
      (later : ℕ)
      → All
          (λ s. (id_is s.device_id device_id && session_usable s later) ≡ false)
          (update_where (on_device device_id) (λ s. record s { revoked_at = some now }) db.sessions)
  unfolding on_device session_usable
  device_sessions later =
      All-update_where _ (on_device device_id) (λ s. record s { revoked_at = some now }) db.sessions
        (λ s h. ground (arith, revoked_unusable s now later)) (λ s h. ground arith)

  -- After a device has been revoked, and a device, the same one too, has then been registered or
  -- refused, no token resolves to a principal on the revoked device: its old sessions stay revoked.
  pub revoke_device_final :
      (order_by_name : List String → List String) (fingerprint : String)
      (later new_id db_now owner : ℕ) (key platform : String) (at : ℕ) {p : Principal}
      → (revoke_device user_id device_id now db).0 ≡ ok true
      → resolved order_by_name fingerprint later
          (register_device new_id db_now owner key platform at
            (revoke_device user_id device_id now db).1).1
        ≡ ok (some p)
      → id_is p.device_id device_id ≡ false
  revoke_device_final order_by_name fingerprint later new_id db_now owner key platform at h e =
      none_resolves order_by_name fingerprint later
        (register_device new_id db_now owner key platform at
          (revoke_device user_id device_id now db).1).1
        (λ i d. id_is d device_id)
        (rw
          (
            register_device-sessions new_id db_now owner key platform at
                (revoke_device user_id device_id now db).1,
            device_state h,
          )
          (device_sessions later))
        e

pub none_pass :
    {A : Type 0} (p : A → Bool) (ss : List A) → exists p ss ≡ false → All (λ s. p s ≡ false) ss
unfolding exists
none_pass p [] h = tt
none_pass p (s ∷ ss) h = ground (arith, none_pass p ss)

-- A token resolves only to a principal whose session is stored and neither revoked nor expired.
pub resolve_session_live :
    (order_by_name : List String → List String) (fingerprint : String) (now : ℕ) (db : Db)
    {p : Principal}
    → resolved order_by_name fingerprint now db ≡ ok (some p)
    → exists (λ s. s.id == p.session_id && session_usable s now) db.sessions ≡ true
resolve_session_live order_by_name fingerprint now db {p = p} e =
    elim (Bool-cases (exists (λ s. s.id == p.session_id && session_usable s now) db.sessions)) [
      | inl h ↦ h
      | inr h ↦
          let other =
            none_resolves order_by_name fingerprint now db (λ i d. i == p.session_id)
              (none_pass _ db.sessions h) e in
          absurd (ground (arith, other))
    ]

All-map_to :
    {A : Type 0} (P Q : A → Type 0) → ((a : A) → P a → Q a) → (xs : List A) → All P xs → All Q xs
All-map_to P Q f [] h = tt
All-map_to P Q f (x ∷ xs) h = (f x h.0, All-map_to P Q f xs h.1)

keep_none : {A : Type 0} (p : A → Bool) (xs : List A) → All (λ x. p x ≡ false) xs → keep p xs ≡ []
unfolding keep
keep_none p [] h = refl
keep_none p (x ∷ xs) h = ground (arith, h.0, keep_none p xs h.1)

module _ (order_by_name : List String → List String) (fingerprint : String) (now : ℕ)
    (db : Db) where
  none_found :
      exists (λ s. str_eq s.token_fingerprint fingerprint && session_usable s now) db.sessions
        ≡ false
      → keep (resolves fingerprint now) (joined db) ≡ []
  unfolding resolves
  none_found h = keep_none (resolves fingerprint now) (joined db) (
      All-map_to
        (λ (j : Joined).
          (str_eq j.session.token_fingerprint fingerprint && session_usable j.session now) ≡ false)
        _ (λ j k. ground (arith, k)) (joined db)
        (All-joined (λ s. (str_eq s.token_fingerprint fingerprint && session_usable s now) ≡ false)
          db (none_pass _ db.sessions h)))

  -- A token whose fingerprint no usable session has resolves to nothing.
  pub resolve_session-none :
      exists (λ s. str_eq s.token_fingerprint fingerprint && session_usable s now) db.sessions
        ≡ false
      → resolve_session order_by_name fingerprint now db ≡ (ok none, db)
  unfolding resolve_session one_or_none
  resolve_session-none h = ground (arith, none_found h)
