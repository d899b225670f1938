-- ===== src/App/Tests.antt =====
-- The application on small tables, with plain stand-ins for what it takes from libraries.
use pentagon5_foundation.Prelude.{
  ℕ, String, ◌+◌, ◌*◌, ◌^◌, ◌≡◌, ◌≤◌, flat_map, refl, true, false, ◌==◌, none, some, List, [], ◌∷◌,
  ok, err, arith, one_of, length, keep,
}
use pentagon5_foundation.Prelude.Int.{pos}
use pentagon5_foundation.Prelude.Json.{Members, object, get, has, has_all, keys_within, keys_equal}
use pentagon5_foundation.Runtime.Envelopes.{websocket_envelope, base, utc_z}
use pentagon5_foundation.Runtime.Uuid7.Text.{Uuids, is_uuid7}
use pentagon5_foundation.Auth.Models.{Principal}
use pentagon5_foundation.Auth.Tables.{Db, exists, delete_where, update_where, one_or_none}
use pentagon5_foundation.Auth.Repository.Sessions.{
  session_usable, resolve_session, joined, join_user, join_session, resolves, role_names,
  permission_codes, principal, revoke_session, revoke_matches, revoke_event, event,
}
use pentagon5_foundation.Auth.Repository.Tickets as Tickets
use pentagon5_foundation.Auth.Repository.Tickets.{ticket_matches}
use pentagon5_foundation.Auth.Repository.TicketUse.{is_ticket_of}
use pentagon5_foundation.Auth.Service as Service
use pentagon5_foundation.Auth.Service.{fingerprint, authenticate}
use pentagon5_foundation.Auth.Service.Tests.{plain, provider, settings, same_order, ada, tables}
use pentagon5_foundation.App.Control.{
  Parsing, without_z, is_utc_z, str, str_or_empty, optional_uuid7, head_valid, metadata_valid,
  payload_control, envelope_control, message_control, websocket_control,
}
use pentagon5_foundation.App.Control.RoundTrip.{websocket_control-envelope}
use pentagon5_foundation.App.Sockets.{
  Incoming, message, Stamp, close, ack, health, answers, add_id, over_cap, control_round,
  checked_round, round, loop, admitted, websocket,
}
use pentagon5_foundation.App.Sockets.Bounds.{within, loop-within}
use pentagon5_foundation.App.Sockets.Endings.{
  ends_at_close, loop-ends_at_close, has_disconnect, loop_progress,
}
use pentagon5_foundation.App.Sockets.Refinement.{after, controls, loop-after}
use pentagon5_foundation.App.Sockets.Tickets.{websocket-accepts_once, connection}
use pentagon5_foundation.App.Routes.{
  Request, api_error, not_retryable, Failure, unchanged, translated, partition_space, token_of,
  current_principal, session, logout, devices, revoke_device, ws_ticket,
}
use pentagon5_foundation.App.Routes.Principals.{logout_final, unauthenticated}

-- One UUID of version 7, written "u".
abbrev one_uuid : Uuids
one_uuid = record { parse = λ s. some (7 * 2 ^ 76 + 2 * 2 ^ 62); show = λ n. "u" }

abbrev subscribe : Members ℕ
subscribe = websocket_envelope "u" "t" "u" "subscribe" "session.events" (some "u")

abbrev parsing : Parsing ℕ
parsing = record {
  loads = λ s. ok (object subscribe);
  show = λ v. "";
  utc_offset = λ s. some (pos 0);
  uuids = one_uuid;
}

abbrev stamp : Stamp
stamp = record {
  message_id = "u";
  now = "t";
  health_message_id = "u";
  health_id = "u";
  health_now = "t";
}

abbrev one_frame : List (Stamp × Incoming)
one_frame = (stamp, message (some "frame")) ∷ []

-- Everything that these runs compute with.
unfoldable running : ℕ
unfolding websocket_control message_control envelope_control payload_control keys_equal keys_within
    has_all has get one_of websocket_envelope base utc_z head_valid metadata_valid is_utc_z str
    str_or_empty optional_uuid7 without_z is_uuid7 loop round checked_round control_round over_cap
    answers ack health add_id
running = 0

websocket_control-envelope_example :
    websocket_control parsing "frame" "session.events"
    ≡ ok (record { operation = "subscribe"; correlation_id = "u"; subscription_id = some "u" })
unfolding running
websocket_control-envelope_example =
    websocket_control-envelope parsing "u" "t" "u" "subscribe" "session.events" (some "u") "frame"
      refl refl refl refl refl refl

loop-within_example :
    within 1 (loop parsing settings "session.events" one_frame []).subscriptions ≡ true
loop-within_example = loop-within parsing settings "session.events" one_frame [] refl

loop_progress_example :
    (has_disconnect one_frame ≡ false)
    × (length one_frame ≤ length (loop parsing settings "session.events" one_frame []).sent)
unfolding running
loop_progress_example = loop_progress parsing settings "session.events" one_frame [] refl

loop-after_example :
    one_of "u" (loop parsing settings "session.events" one_frame []).subscriptions
    ≡ after (controls parsing settings "session.events" one_frame) "u" (one_of "u" [])
unfolding running
loop-after_example = loop-after parsing settings "session.events" one_frame [] "u" refl

abbrev with_ticket : Db
with_ticket = record tables {
  tickets =
      record {
        id = 6;
        ticket_fingerprint = "t";
        session_id = 4;
        channel = "session.events";
        expires_at = 90;
      }
      ∷ [];
}

unfoldable connecting : ℕ
unfolding running websocket admitted Service.consume_ws_ticket fingerprint Tickets.consume_ws_ticket
    ticket_matches exists session_usable keep delete_where one_or_none
connecting = 0

websocket-accepts_once_example :
    ((fp : String) × (id : ℕ) × (fingerprint plain provider settings same_order "t" ≡ ok fp)
      × (exists (is_ticket_of fp "session.events" 10 with_ticket.sessions id) with_ticket.tickets
          ≡ true))
    × ((connection parsing settings "session.events" plain provider same_order "t" 12 one_frame
          (connection parsing settings "session.events" plain provider same_order "t" 10 one_frame
            with_ticket).1).0.sent
        ≡ close 1008 ∷ [])
unfolding connecting
websocket-accepts_once_example =
    websocket-accepts_once parsing settings "session.events" plain provider same_order "t" 10
      one_frame with_ticket 12 one_frame (omega arith) refl

abbrev two_sessions : Db
two_sessions = record tables {
  sessions =
      record {
        id = 5;
        user_id = 1;
        device_id = none;
        token_fingerprint = "other";
        expires_at = 100;
        revoked_at = none;
      }
      ∷ tables.sessions;
}

abbrev bearer : String → Request
bearer token = record { authorization = some token; session_cookie = none }

abbrev elsewhere : Principal
elsewhere = record ada { session_id = 5 }

unfoldable serving : ℕ
unfolding connecting current_principal token_of partition_space translated authenticate
    resolve_session joined join_user join_session resolves role_names permission_codes principal
    logout Service.logout revoke_session revoke_matches revoke_event event flat_map update_where
serving = 0

logout_final_example : (5 == 4) ≡ false
unfolding serving
logout_final_example =
    logout_final plain provider settings same_order (bearer "bearer token") 10 9 11 two_sessions
      (bearer "bearer other") 20 {p = ada} {q = elsewhere} {c = unchanged} refl refl refl

-- The token is not that of the one session.
unauthenticated_example :
    let answer : Failure =
      api_error (not_retryable 401 "SESSION_INVALID" "Session is invalid or expired") in
    (session plain provider settings same_order (bearer "bearer other") 10 tables
      ≡ (err answer, tables))
    × (devices plain provider settings same_order (bearer "bearer other") 10 tables
        ≡ (err answer, tables))
    × (logout plain provider settings same_order (bearer "bearer other") 10 9 11 tables
        ≡ (err answer, tables))
    × (revoke_device plain provider settings same_order (bearer "bearer other") 10 3 11 tables
        ≡ (err answer, tables))
    × (ws_ticket plain provider settings same_order
          (bearer "bearer other")
          10
          9
          "drawn"
          none
          "system.health"
          11
          tables
        ≡ (err answer, tables))
unfolding serving
unauthenticated_example =
    unauthenticated plain provider settings same_order (bearer "bearer other") 10 tables 9 3 11
      "drawn" none "system.health" {token = "other"} {fp = "other"} refl refl refl

loop-ends_at_close_example :
    ends_at_close (loop parsing settings "session.events" one_frame []).sent ≡ true
loop-ends_at_close_example = loop-ends_at_close parsing settings "session.events" one_frame []
