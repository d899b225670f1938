-- ===== src/Auth/Tests.antt =====
-- Runs of the repository on small tables, and the theorems of its modules at such tables.
use pentagon5_foundation.Prelude.{
  ℕ, String, true, false, ◌&&◌, ◌==◌, ltb, if◌then◌else◌, ◌≡◌, refl, arith, none, some, List, [],
  ok, keep, flat_map, one_of,
}
use pentagon5_foundation.Auth.Models.{Principal}
use pentagon5_foundation.Auth.Tables.{
  Db, exists, delete_where, update_where, one_or_none, scalar_one,
}
use pentagon5_foundation.Auth.Repository.Flows.{
  put_flow, flow_matches, consume_flow, put_login_grant, grant_matches, consume_login_grant,
}
use pentagon5_foundation.Auth.Repository.Devices.{
  provision_identity, provision_known, insert_identity, same_device, upsert_device, register_device,
  refreshed_device,
}
use pentagon5_foundation.Auth.Repository.Sessions.{
  event, create_session, join_user, join_session, joined, session_usable, resolves, role_names,
  permission_codes, principal, resolve_session, revoke_matches, revoke_event, revoke_session,
  device_matches, on_device, revoke_sessions, revoke_device, id_is,
}
use pentagon5_foundation.Auth.Repository.Tickets.{put_ws_ticket, ticket_matches, consume_ws_ticket}
use pentagon5_foundation.Auth.Repository.Grants.{consume_login_grant_once, consume-put_login_grant}
use pentagon5_foundation.Auth.Repository.TicketUse.{consume_ws_ticket_live}
use pentagon5_foundation.Auth.Repository.Revocation.{
  resolve_session_live, resolved, revoke_session_final, revoke_device_final,
}

-- Everything that a run of the repository computes with.
unfoldable running : ℕ
unfolding put_flow flow_matches consume_flow put_login_grant grant_matches consume_login_grant
    provision_identity provision_known insert_identity same_device upsert_device register_device
    refreshed_device event create_session join_user join_session joined session_usable resolves
    role_names permission_codes principal resolve_session revoke_matches revoke_event revoke_session
    device_matches on_device revoke_sessions revoke_device put_ws_ticket ticket_matches
    consume_ws_ticket exists delete_where update_where one_or_none scalar_one keep flat_map one_of
running = 0

abbrev empty : Db
empty = record {
  users = [];
  devices = [];
  sessions = [];
  identities = [];
  flows = [];
  grants = [];
  tickets = [];
  events = [];
  roles = [];
  permissions = [];
  user_roles = [];
  role_permissions = [];
}

abbrev same_order : List String → List String
same_order names = names

abbrev with_user : Db
with_user =
    (provision_identity 1 2 10
      (record {
        issuer = "issuer";
        subject = "ada";
        email = "ada@example.com";
        display_name = "Ada";
      })
      empty).1

abbrev with_device : Db
with_device = (register_device 3 10 1 "key" "linux" 10 with_user).1

abbrev with_session : Db
with_session = (create_session 4 5 1 3 "token" 100 with_device).1

abbrev another : Db
another =
    (create_session 6 7 1 9 "other" 100 (register_device 9 60 1 "new" "web" 60 with_session).1).1

resolved_session :
    resolved same_order "token" 50 with_session
    ≡ ok (
        some (record {
          user_id = 1;
          session_id = 4;
          device_id = some 3;
          email = "ada@example.com";
          display_name = "Ada";
          roles = [];
          permissions = [];
          expires_at = 100;
        }))
unfolding running
resolved_session = refl

abbrev with_ticket : Db
with_ticket = (put_ws_ticket 8 "ticket" 4 "session.events" 90 with_session).1

abbrev with_flow : Db
with_flow = (put_flow 1 "state" "sealed" "app:/" 90 empty).1

abbrev with_grant : Db
with_grant = (put_login_grant 1 "code" "sealed" 90 empty).1

consume_login_grant_once_example :
    (consume_login_grant "code" 60 (consume_login_grant "code" 50 with_grant).1).0 ≡ ok none
unfolding running
consume_login_grant_once_example =
    consume_login_grant_once "code" 50 with_grant 60 (omega arith) refl

consume-put_login_grant_example :
    (consume_login_grant "code" 50 (put_login_grant 1 "code" "sealed" 90 empty).1).0
    ≡ ok (if ltb 50 90 then some "sealed" else none)
unfolding running
consume-put_login_grant_example = consume-put_login_grant 1 "code" "sealed" 90 empty 50 refl

consume_ws_ticket_live_example :
    exists (λ s. s.id == 4 && session_usable s 50) with_ticket.sessions ≡ true
unfolding running
consume_ws_ticket_live_example =
    consume_ws_ticket_live "ticket" "session.events" 50 with_ticket {id = 4} refl

abbrev other_principal : Principal
other_principal = record {
  user_id = 1;
  session_id = 6;
  device_id = some 9;
  email = "ada@example.com";
  display_name = "Ada";
  roles = [];
  permissions = [];
  expires_at = 100;
}

revoke_session_final_example : (6 == 4) ≡ false
unfolding running
revoke_session_final_example =
    revoke_session_final 20 4 50 another same_order "other" 60 {p = other_principal} refl refl

revoke_device_final_example : id_is (some 9) 3 ≡ false
unfolding running
revoke_device_final_example =
    revoke_device_final 1 3 50 another same_order "other" 60 10 60 1 "key" "linux" 60
      {p = other_principal} refl refl

resolve_session_live_example :
    exists (λ s. s.id == 6 && session_usable s 60) another.sessions ≡ true
unfolding running
resolve_session_live_example =
    resolve_session_live same_order "other" 60 another {p = other_principal} refl
