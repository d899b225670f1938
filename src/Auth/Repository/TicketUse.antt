-- ===== src/Auth/Repository/TicketUse.antt =====
-- WebSocket tickets of services/authentication/pentagon5_auth/repository.py: used once, and only
-- with a live session.
use pentagon5_foundation.Prelude.{
  ℕ, String, Bool, true, false, ◌&&◌, ◌||◌, eq_refl, ◌==◌, ◌≤◌, ◌≡◌, Option, none, some, List, [],
  ◌∷◌, Result, ok, err, ltb, str_eq, keep, if◌then◌else◌, arith, inl, inr, Result-cases, ap, sym,
  ◌∙◌, All-keep_self, All-keep, Bool-cases,
}
use pentagon5_foundation.Auth.Models.{Error}
use pentagon5_foundation.Auth.Tables.{Db, TicketRow, SessionRow, exists, delete_where, one_or_none}
use pentagon5_foundation.Auth.Tables.Laws.{keep-delete_where, keep-absent, one_or_none-All}
use pentagon5_foundation.Auth.Repository.Revocation.{none_pass}
use pentagon5_foundation.Auth.Repository.Sessions.{session_usable}
use pentagon5_foundation.Auth.Repository.Tickets.{
  put_ws_ticket, ticket_matches, as_session_id, consume_ws_ticket,
}

live : ℕ → ℕ → SessionRow → Bool
live id now s = s.id == id && session_usable s now

live_earlier :
    (id now later : ℕ) (ss : List SessionRow)
    → now ≤ later
    → exists (λ s. s.id == id && session_usable s later) ss ≡ true
    → exists (λ s. s.id == id && session_usable s now) ss ≡ true
unfolding exists session_usable
live_earlier id now later [] h e = ground arith
live_earlier id now later (s ∷ ss) h e = ground (arith, live_earlier id now later ss h)

module _ (fingerprint channel : String) (now : ℕ) (db : Db) where
  abbrev without : Db
  without = record db {
    tickets = delete_where (ticket_matches db.sessions fingerprint channel now) db.tickets;
  }

  consume_ws_ticket_lem :
      {r : Option TicketRow}
      → one_or_none (keep (ticket_matches db.sessions fingerprint channel now) db.tickets) ≡ ok r
      → consume_ws_ticket fingerprint channel now db ≡ (ok (as_session_id r), without)
  unfolding consume_ws_ticket
  consume_ws_ticket_lem h = ground arith

  consume_ws_ticket_err :
      {e : Error}
      → one_or_none (keep (ticket_matches db.sessions fingerprint channel now) db.tickets) ≡ err e
      → consume_ws_ticket fingerprint channel now db ≡ (err e, db)
  unfolding consume_ws_ticket
  consume_ws_ticket_err h = ground arith

  matches_later :
      (later : ℕ)
      → now ≤ later
      → (t : TicketRow) → ticket_matches db.sessions fingerprint channel later t ≡ true
      → ticket_matches db.sessions fingerprint channel now t ≡ true
  unfolding ticket_matches
  matches_later later h t e = ground (arith, live_earlier t.session_id now later db.sessions h)

module _ (fingerprint channel : String) (now : ℕ) (db : Db) where
  of_row :
      (t : TicketRow) (id : ℕ) {r : Result Error (Option ℕ)}
      → ticket_matches db.sessions fingerprint channel now t ≡ true
      → r ≡ ok (as_session_id (some t))
      → r ≡ ok (some id)
      → exists (λ s. s.id == id && session_usable s now) db.sessions ≡ true
  unfolding ticket_matches
  of_row t id m h e = let same = sym h ∙ e in ground arith

  found_state :
      {id : ℕ}
      → (consume_ws_ticket fingerprint channel now db).0 ≡ ok (some id)
      → (consume_ws_ticket fingerprint channel now db).1 ≡ without fingerprint channel now db
  found_state e =
      elim (Result-cases
        (one_or_none (keep (ticket_matches db.sessions fingerprint channel now) db.tickets))) [
          | inl (r, h) ↦ rw (consume_ws_ticket_lem fingerprint channel now db h)
          | inr (x, h) ↦ cc (consume_ws_ticket_err fingerprint channel now db h, e)
        ]

  -- A ticket that has been consumed is not accepted again, at that time or later.
  pub consume_ws_ticket_once :
      (later : ℕ) {id : ℕ}
      → now ≤ later
      → (consume_ws_ticket fingerprint channel now db).0 ≡ ok (some id)
      → (consume_ws_ticket fingerprint channel later
          (consume_ws_ticket fingerprint channel now db).1).0
        ≡ ok none
  consume_ws_ticket_once later h e =
      let gone =
        keep-delete_where (ticket_matches db.sessions fingerprint channel now)
          (ticket_matches db.sessions fingerprint channel later) db.tickets
          (matches_later fingerprint channel now db later h) in
      rw (
        found_state e,
        consume_ws_ticket_lem fingerprint channel later (without fingerprint channel now db)
            {r = none} (unfold one_or_none in rw gone),
      )

  -- Every ticket that is accepted names a session that is neither revoked nor expired.
  pub consume_ws_ticket_live :
      {id : ℕ}
      → (consume_ws_ticket fingerprint channel now db).0 ≡ ok (some id)
      → exists (λ s. s.id == id && session_usable s now) db.sessions ≡ true
  consume_ws_ticket_live {id} e =
      elim (Result-cases
        (one_or_none (keep (ticket_matches db.sessions fingerprint channel now) db.tickets))) [
          | inl (none, h) ↦
              cc (ap (λ o. o.0) (consume_ws_ticket_lem fingerprint channel now db h), e)
          | inl (some t, h) ↦
              of_row t id
                (one_or_none-All (λ t. ticket_matches db.sessions fingerprint channel now t ≡ true)
                  _ (All-keep_self (ticket_matches db.sessions fingerprint channel now) db.tickets)
                  h)
                (ap (λ o. o.0) (consume_ws_ticket_lem fingerprint channel now db h)) e
          | inr (x, h) ↦ cc (ap (λ o. o.0) (consume_ws_ticket_err fingerprint channel now db h), e)
        ]

-- Whether a ticket is one of the fingerprint and channel for the session, has not expired, and its
-- session is neither revoked nor expired.
abbrev pub is_ticket_of : String → String → ℕ → List SessionRow → ℕ → TicketRow → Bool
is_ticket_of fingerprint channel now sessions id t =
    str_eq t.ticket_fingerprint fingerprint
    && str_eq t.channel channel
    && ltb now t.expires_at
    && (t.session_id == id)
    && exists (λ s. s.id == id && session_usable s now) sessions

module _ (fingerprint channel : String) (now : ℕ) (db : Db) where
  other_row :
      (t : TicketRow) (id : ℕ) {r : Result Error (Option ℕ)}
      → ticket_matches db.sessions fingerprint channel now t ≡ true
      → is_ticket_of fingerprint channel now db.sessions id t ≡ false
      → r ≡ ok (as_session_id (some t))
      → r ≡ ok (some id)
      → ⊥
  unfolding ticket_matches
  other_row t id m n h e = let same = sym h ∙ e in ground arith

  -- A session that consuming a ticket gives is that of a stored ticket of the fingerprint and channel
  -- that has not expired, and is neither revoked nor expired.
  pub consume_ws_ticket_stored :
      {id : ℕ}
      → (consume_ws_ticket fingerprint channel now db).0 ≡ ok (some id)
      → exists (is_ticket_of fingerprint channel now db.sessions id) db.tickets ≡ true
  consume_ws_ticket_stored {id} e =
      elim (Bool-cases (exists (is_ticket_of fingerprint channel now db.sessions id) db.tickets)) [
        | inl h ↦ h
        | inr h ↦
            elim (Result-cases (
              one_or_none (keep (ticket_matches db.sessions fingerprint channel now) db.tickets))) [
                | inl (none, k) ↦
                    cc (ap (λ o. o.0) (consume_ws_ticket_lem fingerprint channel now db k), e)
                | inl (some t, k) ↦ absurd (
                    other_row t id
                      (one_or_none-All
                        (λ t. ticket_matches db.sessions fingerprint channel now t ≡ true) _
                        (All-keep_self (ticket_matches db.sessions fingerprint channel now)
                          db.tickets)
                        k)
                      (one_or_none-All
                        (λ t. is_ticket_of fingerprint channel now db.sessions id t ≡ false) _
                        (All-keep _ (ticket_matches db.sessions fingerprint channel now) db.tickets
                          (none_pass (is_ticket_of fingerprint channel now db.sessions id)
                            db.tickets h))
                        k)
                      (ap (λ o. o.0) (consume_ws_ticket_lem fingerprint channel now db k)) e)
                | inr (x, k) ↦
                    cc (ap (λ o. o.0) (consume_ws_ticket_err fingerprint channel now db k), e)
              ]
      ]

module _ (id : ℕ) (fingerprint : String) (session_id : ℕ) (channel : String) (expires_at : ℕ)
    (db : Db) where
  abbrev put : Result Error (Unit {0}) × Db
  put = put_ws_ticket id fingerprint session_id channel expires_at db

  abbrev new_ticket : TicketRow
  new_ticket = record {
    id = id;
    ticket_fingerprint = fingerprint;
    session_id = session_id;
    channel = channel;
    expires_at = expires_at;
  }

  put_ws_ticket_lem :
      put.0 ≡ ok tt
      → (exists (λ t. t.id == id || str_eq t.ticket_fingerprint fingerprint) db.tickets ≡ false)
        × (put.1 ≡ record db { tickets = new_ticket ∷ db.tickets })
  unfolding put_ws_ticket
  put_ws_ticket_lem h = ground arith

  abbrev pub is_accepted : String → ℕ → Bool
  is_accepted asked t =
      str_eq channel asked
      && ltb t expires_at
      && exists (λ s. s.id == session_id && session_usable s t) db.sessions

  ticket_rows :
      (asked : String) (t : ℕ)
      → exists (λ t. t.id == id || str_eq t.ticket_fingerprint fingerprint) db.tickets ≡ false
      → one_or_none
          (keep (ticket_matches db.sessions fingerprint asked t) (new_ticket ∷ db.tickets))
        ≡ ok (if is_accepted asked t then some new_ticket else none)
  unfolding keep ticket_matches one_or_none
  ticket_rows asked t h = ground (
    arith,
    eq_refl fingerprint,
    keep-absent (λ (g : TicketRow). g.id == id || str_eq g.ticket_fingerprint fingerprint)
        (ticket_matches db.sessions fingerprint asked t) db.tickets h (λ f e. ground arith),
  )

  -- A stored ticket gives its session exactly for its channel, before it expires and while that
  -- session is neither revoked nor expired.
  pub consume-put_ws_ticket :
      (asked : String) (t : ℕ)
      → put.0 ≡ ok tt
      → (consume_ws_ticket fingerprint asked t put.1).0
        ≡ ok (if is_accepted asked t then some session_id else none)
  consume-put_ws_ticket asked t h =
      let (fresh, state) = put_ws_ticket_lem h in
      rw
        (
          state,
          consume_ws_ticket_lem fingerprint asked t
              (record db { tickets = new_ticket ∷ db.tickets }) (ticket_rows asked t fresh),
        )
        (ground arith)
