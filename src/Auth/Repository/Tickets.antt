-- ===== src/Auth/Repository/Tickets.antt =====
-- services/authentication/pentagon5_auth/repository.py, WebSocket tickets.
use pentagon5_foundation.Prelude.{
  ℕ, String, Bool, ◌&&◌, ◌||◌, not, Option, none, some, List, [], ◌∷◌, pure, lift, gets, ◌>>=◌,
  ◌>>◌, modify, raise_if, ◌==◌, ltb, str_eq, one_of, keep,
}
use pentagon5_foundation.Auth.Models.{integrity_error}
use pentagon5_foundation.Auth.Tables.{
  SessionRow, TicketRow, Query, exists, delete_where, one_or_none, transaction,
}
use pentagon5_foundation.Auth.Repository.Sessions.{session_usable}

abbrev pub channels : List String
channels = "system.health" ∷ "session.events" ∷ []

unfoldable pub put_ws_ticket : ℕ → String → ℕ → String → ℕ → Query (Unit {0})
put_ws_ticket id fingerprint session_id channel expires_at = transaction (do
  db ← gets (λ d. d)
  raise_if
      (exists (λ t. t.id == id || str_eq t.ticket_fingerprint fingerprint) db.tickets
        || not (exists (λ s. s.id == session_id) db.sessions)
        || not (one_of channel channels))
      integrity_error
  modify (λ d. record d {
    tickets =
        record {
          id = id;
          ticket_fingerprint = fingerprint;
          session_id = session_id;
          channel = channel;
          expires_at = expires_at;
        }
        ∷ d.tickets;
  }))

-- The join with `sessions` in the statement's `USING`.
unfoldable pub ticket_matches : List SessionRow → String → String → ℕ → TicketRow → Bool
ticket_matches sessions fingerprint channel now t =
    str_eq t.ticket_fingerprint fingerprint
    && str_eq t.channel channel
    && ltb now t.expires_at
    && exists (λ s. s.id == t.session_id && session_usable s now) sessions

abbrev pub as_session_id : Option TicketRow → Option ℕ
as_session_id none = none
as_session_id (some t) = some t.session_id

unfoldable pub consume_ws_ticket : String → String → ℕ → Query (Option ℕ)
consume_ws_ticket fingerprint channel now = transaction (do
  db ← gets (λ d. d)
  let rows = keep (ticket_matches db.sessions fingerprint channel now) db.tickets
  modify (λ d. record d {
    tickets = delete_where (ticket_matches db.sessions fingerprint channel now) d.tickets;
  })
  row ← lift (one_or_none rows)
  pure (as_session_id row))
