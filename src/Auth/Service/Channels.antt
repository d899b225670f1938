-- ===== src/Auth/Service/Channels.antt =====
-- services/authentication/pentagon5_auth/service.py: WebSocket tickets, from the check of the
-- permission to the session that a ticket gives.
use pentagon5_foundation.Prelude.{
  ℕ, String, ◌+◌, ◌≡◌, Bool, true, false, not, ◌&&◌, ◌||◌, Option, none, some, List, Result, ok,
  err, ltb, str_eq, ◌==◌, one_of, if◌then◌else◌, arith, length,
}
use pentagon5_foundation.Auth.Models.{Error, authentication_error, permission_denied, Principal}
use pentagon5_foundation.Auth.Tables.{Db, exists}
use pentagon5_foundation.Auth.Repository.Sessions.{session_usable}
use pentagon5_foundation.Auth.Repository.Tickets as Tickets
use pentagon5_foundation.Auth.Repository.TicketUse.{consume-put_ws_ticket}
use pentagon5_foundation.Auth.Config.{Settings}
use pentagon5_foundation.Auth.Service.Externals.{Outside, Oidc}
use pentagon5_foundation.Auth.Service.{
  ws_channels, require, check_channel, store_ticket, issue_ws_ticket, consume_ws_ticket,
  fingerprint, random_token, seconds,
}

module _ {F Byte : Type 0} (o : Outside Byte) (oidc : Oidc) (settings : Settings F Byte)
    (order_by_name : List String → List String) (id : ℕ) (drawn : String) (principal : Principal)
    (channel : String) (now : ℕ) (db : Db) where
  abbrev pub issued : Result Error String × Db
  issued = issue_ws_ticket o oidc settings order_by_name id drawn principal channel now db

  abbrev pub is_permitted : Bool
  is_permitted =
      one_of channel ws_channels
      && (not (str_eq channel "system.health") || one_of "system.health.read" principal.permissions)

  -- A ticket for an unknown channel is refused, and so is one for the health channel to a principal
  -- without the permission; a refusal changes nothing.
  pub issue_ws_ticket_refused :
      is_permitted ≡ false
      → issued ≡ (
        err (
            if one_of channel ws_channels
            then permission_denied "missing permission: system.health.read"
            else authentication_error "unsupported WebSocket channel"),
        db,
      )
  unfolding issue_ws_ticket check_channel require
  issue_ws_ticket_refused h = ground arith

  issued_put :
      {ticket : String}
      → issued.0 ≡ ok ticket
      → (ticket ≡ drawn)
        × (ltb (length settings.hmac_key) 32 ≡ false)
        × ((Tickets.put_ws_ticket id
              (o.hmac_hex settings.hmac_key drawn)
              principal.session_id
              channel
              (now + seconds settings.ws_ticket_ttl_seconds)
              db).0
            ≡ ok tt)
        × (issued.1
            ≡ (Tickets.put_ws_ticket id
                (o.hmac_hex settings.hmac_key drawn)
                principal.session_id
                channel
                (now + seconds settings.ws_ticket_ttl_seconds)
                db).1)
  unfolding issue_ws_ticket check_channel require store_ticket random_token fingerprint
  issued_put e = ground arith

  consumed :
      (asked : String) (t : ℕ) (s : Db) {found : Option ℕ}
      → one_of asked ws_channels ≡ true
      → ltb (length settings.hmac_key) 32 ≡ false
      → (Tickets.consume_ws_ticket (o.hmac_hex settings.hmac_key drawn) asked t s).0 ≡ ok found
      → (consume_ws_ticket o oidc settings order_by_name drawn asked t s).0 ≡ elim found [
        | none ↦ err (authentication_error "WebSocket ticket is invalid or expired")
        | some n ↦ ok n
      ]
  unfolding consume_ws_ticket fingerprint
  consumed asked t s {found = none} h k e = ground arith
  consumed asked t s {found = some n} h k e = ground arith

  -- An issued ticket is accepted exactly on its channel, before it expires and while the session of
  -- the principal is neither revoked nor expired, and it gives that session.
  pub consume-issue_ws_ticket :
      {ticket : String} (asked : String) (t : ℕ)
      → issued.0 ≡ ok ticket
      → one_of asked ws_channels ≡ true
      → (consume_ws_ticket o oidc settings order_by_name ticket asked t issued.1).0 ≡ (
          if str_eq channel asked
            && ltb t (now + seconds settings.ws_ticket_ttl_seconds)
            && exists (λ s. s.id == principal.session_id && session_usable s t) db.sessions
          then ok principal.session_id
          else err (authentication_error "WebSocket ticket is invalid or expired"))
  consume-issue_ws_ticket asked t e k =
      let (same, long, done, state) = issued_put e in
      let found =
        consume-put_ws_ticket id (o.hmac_hex settings.hmac_key drawn) principal.session_id channel
          (now + seconds settings.ws_ticket_ttl_seconds) db asked t done in
      rw
        (
          same,
          state,
          consumed asked t
              (Tickets.put_ws_ticket id (o.hmac_hex settings.hmac_key drawn) principal.session_id
                channel (now + seconds settings.ws_ticket_ttl_seconds) db).1
              k long found,
        )
        (ground arith)
