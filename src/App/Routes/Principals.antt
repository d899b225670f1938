-- ===== src/App/Routes/Principals.antt =====
-- services/authentication/pentagon5_auth/app.py: which requests are authenticated, and as what.
use pentagon5_foundation.Prelude.{
  ℕ, String, ◌≡◌, true, false, ◌&&◌, ◌||◌, not, ◌==◌, Option, some, List, ok, err, str_eq, arith,
  inl, inr, Result-cases, subst,
}
use pentagon5_foundation.Auth.Models.{Principal}
use pentagon5_foundation.Auth.Config.{Settings}
use pentagon5_foundation.Auth.Tables.{Db, exists}
use pentagon5_foundation.Auth.Repository.Sessions.{session_usable, resolve_session, revoke_session}
use pentagon5_foundation.Auth.Repository.Revocation.{
  resolve_session_live, resolve_session-none, revoke_session_final,
}
use pentagon5_foundation.Auth.Service as Service
use pentagon5_foundation.Auth.Service.{fingerprint}
use pentagon5_foundation.Auth.Service.Externals.{Outside, Oidc}
use pentagon5_foundation.App.Routes.{
  not_retryable, api_error, Request, Failure, Cookie, translated, token_of, current_principal,
  logout, or_empty, session, devices, revoke_device, ws_ticket,
}

module _ {F Byte : Type 0} (o : Outside Byte) (oidc : Oidc) (settings : Settings F Byte)
    (order_by_name : List String → List String) where
  -- The request's principal is what the repository resolves for some fingerprint, and nothing is stored.
  principal_resolved :
      (request : Request) (at : ℕ) (db : Db) {p : Principal}
      → (current_principal o oidc settings order_by_name request at db).0 ≡ ok p
      → (fp : String) × ((resolve_session order_by_name fp at db).0 ≡ ok (some p))
  unfolding current_principal translated Service.authenticate
  principal_resolved request at db e =
      elim (Result-cases (token_of o oidc settings order_by_name request)) [
        | inr (x, t) ↦ ground (arith, e, t)
        | inl (token, t) ↦ elim (Result-cases (fingerprint o oidc settings order_by_name token)) [
          | inr (x, f) ↦ ground (arith, e, t, f)
          | inl (fp, f) ↦ (fp, ground (arith, e, t, f))
        ]
      ]

  principal_state :
      (request : Request) (at : ℕ) (db : Db)
      → (current_principal o oidc settings order_by_name request at db).1 ≡ db
  unfolding current_principal translated Service.authenticate resolve_session
  principal_state request at db = ground arith

  -- Every request that is authenticated has a stored session that is neither revoked nor expired.
  pub current_principal-live :
      (request : Request) (at : ℕ) (db : Db) {p : Principal}
      → (current_principal o oidc settings order_by_name request at db).0 ≡ ok p
      → exists (λ s. s.id == p.session_id && session_usable s at) db.sessions ≡ true
  current_principal-live request at db {p = p} e =
      let (fp, r) = principal_resolved request at db {p = p} e in
      resolve_session_live order_by_name fp at db r

  logged_out :
      (request : Request) (at event_id now : ℕ) (db : Db) {p : Principal} {c : Cookie}
      → (current_principal o oidc settings order_by_name request at db).0 ≡ ok p
      → (logout o oidc settings order_by_name request at event_id now db).0 ≡ ok c
      → ((revoke_session event_id p.session_id now db).0 ≡ ok tt)
        × ((logout o oidc settings order_by_name request at event_id now db).1
            ≡ (revoke_session event_id p.session_id now db).1)
  unfolding logout translated Service.logout
  logged_out request at event_id now db {p = p} e l =
      let kept = principal_state request at db in
      (ground (arith, e, kept, l), ground (arith, e, kept, l))

  -- After a logout, no request is authenticated as that session, at any time and with any token.
  pub logout_final :
      (request : Request) (at event_id now : ℕ) (db : Db) (again : Request) (later : ℕ)
      {p q : Principal} {c : Cookie}
      → (current_principal o oidc settings order_by_name request at db).0 ≡ ok p
      → (logout o oidc settings order_by_name request at event_id now db).0 ≡ ok c
      → (current_principal o oidc settings order_by_name again later
          (logout o oidc settings order_by_name request at event_id now db).1).0
        ≡ ok q
      → (q.session_id == p.session_id) ≡ false
  logout_final request at event_id now db again later {p = p} {q = q} {c = c} e l f =
      let (done, state) = logged_out request at event_id now db {p = p} {c = c} e l in
      let (fp, r) =
        principal_resolved again later (revoke_session event_id p.session_id now db).1 {p = q} (
          subst (λ d. (current_principal o oidc settings order_by_name again later d).0 ≡ ok q)
            state f) in
      revoke_session_final event_id p.session_id now db order_by_name fp later done r

  abbrev refusal : Failure
  refusal = api_error (not_retryable 401 "SESSION_INVALID" "Session is invalid or expired")

  unresolved :
      (request : Request) (at : ℕ) (db : Db) {token fp : String}
      → token_of o oidc settings order_by_name request ≡ ok token
      → fingerprint o oidc settings order_by_name token ≡ ok fp
      → exists (λ s. str_eq s.token_fingerprint fp && session_usable s at) db.sessions ≡ false
      → current_principal o oidc settings order_by_name request at db ≡ (err refusal, db)
  unfolding current_principal translated Service.authenticate
  unresolved request at db {fp = fp} t f h =
      ground (arith, t, f, resolve_session-none order_by_name fp at db h)

  -- Where no stored session that is neither revoked nor expired has the fingerprint of the request's
  -- token, every route that needs a principal answers with the status 401 and the code
  -- SESSION_INVALID, and nothing is stored.
  pub unauthenticated :
      (request : Request) (at : ℕ) (db : Db) (new_id device_id now : ℕ) (drawn : String)
      (place : Option String) (channel : String) {token fp : String}
      → token_of o oidc settings order_by_name request ≡ ok token
      → fingerprint o oidc settings order_by_name token ≡ ok fp
      → exists (λ s. str_eq s.token_fingerprint fp && session_usable s at) db.sessions ≡ false
      → let answer : Failure =
          api_error (not_retryable 401 "SESSION_INVALID" "Session is invalid or expired") in
        (session o oidc settings order_by_name request at db ≡ (err answer, db))
        × (devices o oidc settings order_by_name request at db ≡ (err answer, db))
        × (logout o oidc settings order_by_name request at new_id now db ≡ (err answer, db))
        × (revoke_device o oidc settings order_by_name request at device_id now db
            ≡ (err answer, db))
        × (ws_ticket o oidc settings order_by_name request at new_id drawn place channel now db
            ≡ (err answer, db))
  unfolding session devices logout revoke_device ws_ticket
  unauthenticated request at db new_id device_id now drawn place channel t f h =
      let e = unresolved request at db t f h in
      (
        ground (arith, e),
        ground (arith, e),
        ground (arith, e),
        ground (arith, e),
        ground (arith, e),
      )

  -- Where there is an authorization header, or cookies are not used, the cookie makes no difference.
  pub cookie_ignored :
      (request : Request) (other : Option String)
      → (not (str_eq (or_empty request.authorization) "") || not settings.web_cookie_mode) ≡ true
      → (at : ℕ) (db : Db)
      → current_principal o oidc settings order_by_name
          (record request { session_cookie = other })
          at
          db
        ≡ current_principal o oidc settings order_by_name request at db
  unfolding current_principal token_of
  cookie_ignored request other h at db = ground (arith, h)
