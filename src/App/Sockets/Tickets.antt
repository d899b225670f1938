-- ===== src/App/Sockets/Tickets.antt =====
-- services/authentication/pentagon5_auth/app.py: which connections the WebSocket route accepts.
use pentagon5_foundation.Prelude.{
  ℕ, String, ◌≡◌, ◌≤◌, Bool, true, false, none, some, List, [], ◌∷◌, Result, ok, arith, inl, inr,
  Result-cases,
}
use pentagon5_foundation.Auth.Models.{Error}
use pentagon5_foundation.Auth.Config.{Settings}
use pentagon5_foundation.Auth.Tables.{Db, exists}
use pentagon5_foundation.Auth.Repository.Tickets as Tickets
use pentagon5_foundation.Auth.Repository.TicketUse.{
  consume_ws_ticket_once, consume_ws_ticket_stored, is_ticket_of,
}
use pentagon5_foundation.Auth.Service as Service
use pentagon5_foundation.Auth.Service.{fingerprint}
use pentagon5_foundation.Auth.Service.Externals.{Outside, Oidc}
use pentagon5_foundation.App.Control.{Parsing}
use pentagon5_foundation.App.Sockets.{
  Incoming, Stamp, Sent, accept, close, Outcome, admitted, websocket,
}

abbrev pub is_accepted : {F : Type 0} → List (Sent F) → Bool
is_accepted (accept ∷ xs) = true
is_accepted _ = false

module _ {Byte F : Type 0} (settings : Settings F Byte) (channel : String) (o : Outside Byte)
    (oidc : Oidc) (order_by_name : List String → List String) (ticket : String) (now : ℕ)
    (db : Db) where
  abbrev consumed : Result Error ℕ × Db
  consumed = Service.consume_ws_ticket o oidc settings order_by_name ticket channel now db

  service_ticket :
      (id : ℕ)
      → consumed.0 ≡ ok id
      → (fp : String) × (fingerprint o oidc settings order_by_name ticket ≡ ok fp)
        × ((Tickets.consume_ws_ticket fp channel now db).0 ≡ ok (some id))
        × (consumed.1 ≡ (Tickets.consume_ws_ticket fp channel now db).1)
  unfolding Service.consume_ws_ticket
  service_ticket id h = elim (Result-cases (fingerprint o oidc settings order_by_name ticket)) [
    | inl (fp, e) ↦ (fp, e, ground (arith, h, e), ground (arith, h, e))
    | inr (x, e) ↦ ground (arith, h, e)
  ]

module _ {F Byte : Type 0} (p : Parsing F) (settings : Settings F Byte) (channel : String)
    (o : Outside Byte) (oidc : Oidc) (order_by_name : List String → List String)
    (ticket : String) where
  abbrev pub connection : ℕ → List (Stamp × Incoming) → Db → Outcome F × Db
  connection now messages db =
      websocket p settings channel o oidc order_by_name ticket now messages db

  connection-consumed :
      (now : ℕ) (messages : List (Stamp × Incoming)) (db : Db)
      → is_accepted (connection now messages db).0.sent ≡ true
      → (id : ℕ) × ((consumed settings channel o oidc order_by_name ticket now db).0 ≡ ok id)
  unfolding websocket admitted
  connection-consumed now messages db h =
      elim (Result-cases (consumed settings channel o oidc order_by_name ticket now db).0) [
        | inl (id, e) ↦ (id, e)
        | inr (x, e) ↦ ground (arith, h, e)
      ]

  websocket_state :
      (now : ℕ) (messages : List (Stamp × Incoming)) (db : Db)
      → (connection now messages db).1
        ≡ (consumed settings channel o oidc order_by_name ticket now db).1
  unfolding websocket
  websocket_state now messages db = ground arith

  refused :
      (now : ℕ) (messages : List (Stamp × Incoming)) (db : Db) (fp : String)
      → fingerprint o oidc settings order_by_name ticket ≡ ok fp
      → (Tickets.consume_ws_ticket fp channel now db).0 ≡ ok none
      → (connection now messages db).0.sent ≡ close 1008 ∷ []
  unfolding websocket admitted Service.consume_ws_ticket
  refused now messages db fp e h = ground (arith, e, h)

  -- An accepted connection has a stored ticket of its fingerprint and channel that has not expired and
  -- whose own session is neither revoked nor expired, and another connection with it, at that time or
  -- later, gets the close with code 1008 and nothing else.
  pub websocket-accepts_once :
      (now : ℕ) (messages : List (Stamp × Incoming)) (db : Db) (later : ℕ)
      (others : List (Stamp × Incoming))
      → now ≤ later
      → is_accepted (connection now messages db).0.sent ≡ true
      → ((fp : String) × (id : ℕ) × (fingerprint o oidc settings order_by_name ticket ≡ ok fp)
          × (exists (is_ticket_of fp channel now db.sessions id) db.tickets ≡ true))
        × ((connection later others (connection now messages db).1).0.sent ≡ close 1008 ∷ [])
  websocket-accepts_once now messages db later others le h =
      let (id, c) = connection-consumed now messages db h in
      let (fp, f, used, state) =
        service_ticket settings channel o oidc order_by_name ticket now db id c in
      (
        (fp, id, f, consume_ws_ticket_stored fp channel now db used),
        refused later others (connection now messages db).1 fp f (
            rw (websocket_state now messages db, state)
              (consume_ws_ticket_once fp channel now db later le used)),
      )
