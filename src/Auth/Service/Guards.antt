-- ===== src/Auth/Service/Guards.antt =====
-- services/authentication/pentagon5_auth/service.py: a login's state is good for one attempt, since
-- nothing after `consume_flow` stores a flow.
use pentagon5_foundation.Prelude.{
  ℕ, String, ◌≤◌, ◌≡◌, ◌∙◌, false, ◌||◌, none, some, List, ok, err, str_eq, arith,
}
use pentagon5_foundation.Prelude.Dict.{Dict}
use pentagon5_foundation.Auth.Models.{authentication_error, Flow, Identity}
use pentagon5_foundation.Auth.Tables.{Db, Query}
use pentagon5_foundation.Auth.Repository.Flows as Flows
use pentagon5_foundation.Auth.Repository.LoginFlows.{consume_flow_once}
use pentagon5_foundation.Auth.Repository.Devices as Devices
use pentagon5_foundation.Auth.Repository.Sessions as Sessions
use pentagon5_foundation.Auth.Config.{Settings}
use pentagon5_foundation.Auth.Service.Externals.{Outside, Oidc, Value}
use pentagon5_foundation.Auth.Service.{
  Draws, checked_flow, open_session, store_grant, complete_login, fingerprint,
}

-- A step that leaves the login flows alone.
abbrev Keeps : {A : Type 0} → Query A → Type 0
Keeps m = (s : Db) → (m s).1.flows ≡ s.flows

provision_identity-Keeps :
    (user_id identity_id db_now : ℕ) (identity : Identity)
    → Keeps (Devices.provision_identity user_id identity_id db_now identity)
unfolding Devices.provision_identity Devices.provision_known Devices.insert_identity
    Devices.update_user
provision_identity-Keeps user_id identity_id db_now identity s = ground arith

register_device-Keeps :
    (id db_now user_id : ℕ) (key platform : String) (now : ℕ)
    → Keeps (Devices.register_device id db_now user_id key platform now)
unfolding Devices.register_device Devices.upsert_device
register_device-Keeps id db_now user_id key platform now s = ground arith

create_session-Keeps :
    (session_id event_id user_id device_id : ℕ) (fingerprint : String) (expires_at : ℕ)
    → Keeps (Sessions.create_session session_id event_id user_id device_id fingerprint expires_at)
unfolding Sessions.create_session Sessions.event
create_session-Keeps session_id event_id user_id device_id fingerprint expires_at s = ground arith

resolve_session-Keeps :
    (order : List String → List String) (fingerprint : String) (now : ℕ)
    → Keeps (Sessions.resolve_session order fingerprint now)
unfolding Sessions.resolve_session
resolve_session-Keeps order fingerprint now s = ground arith

put_login_grant-Keeps :
    (id : ℕ) (fingerprint payload : String) (expires_at : ℕ)
    → Keeps (Flows.put_login_grant id fingerprint payload expires_at)
unfolding Flows.put_login_grant
put_login_grant-Keeps id fingerprint payload expires_at s = ground arith

consume_by_flows :
    (fp : String) (now : ℕ) (s t : Db)
    → s.flows ≡ t.flows
    → (Flows.consume_flow fp now s).0 ≡ (Flows.consume_flow fp now t).0
unfolding Flows.consume_flow
consume_by_flows fp now s t h = ground arith

module _ {F Byte : Type 0} (o : Outside Byte) (oidc : Oidc) (settings : Settings F Byte)
    (order_by_name : List String → List String) where
  open_session-Keeps :
      (d : Draws Byte) (now : ℕ) (payload : Dict Value) (code : String)
      → Keeps (open_session o oidc settings order_by_name d now payload code)
  unfolding open_session
  open_session-Keeps d now payload code s = grind (
    arith, provision_identity-Keeps, register_device-Keeps, create_session-Keeps,
    resolve_session-Keeps,
  )

  store_grant-Keeps :
      (d : Draws Byte) (now : ℕ) → Keeps (store_grant o oidc settings order_by_name d now)
  unfolding store_grant
  store_grant-Keeps d now s = grind (arith, put_login_grant-Keeps)

  -- The answer of a login to a state whose flow is not there.
  pub without_flow :
      (d : Draws Byte) (now : ℕ) (state code fp : String) (s : Db)
      → (str_eq state "" || str_eq code "") ≡ false
      → fingerprint o oidc settings order_by_name state ≡ ok fp
      → (Flows.consume_flow fp now s).0 ≡ ok none
      → (complete_login o oidc settings order_by_name d now state code s).0
        ≡ err (authentication_error "authorization transaction is invalid or expired")
  unfolding complete_login checked_flow
  without_flow d now state code fp s h k e = ground arith

  kept_after_consume :
      (d : Draws Byte) (now : ℕ) (state code fp : String) (s : Db)
      → (str_eq state "" || str_eq code "") ≡ false
      → fingerprint o oidc settings order_by_name state ≡ ok fp
      → (complete_login o oidc settings order_by_name d now state code s).1.flows
        ≡ (Flows.consume_flow fp now s).1.flows
  unfolding complete_login checked_flow
  kept_after_consume d now state code fp s h k =
      grind (arith, open_session-Keeps, store_grant-Keeps)

  -- When a login attempt has found the flow of its state, whatever came of the attempt, no later
  -- attempt with that state succeeds: it is refused as invalid or expired.
  pub complete_login_once :
      (d d' : Draws Byte) (now later : ℕ) (state code code' fp : String) (s : Db) {f : Flow}
      → (str_eq state "" || str_eq code "") ≡ false
      → (str_eq state "" || str_eq code' "") ≡ false
      → fingerprint o oidc settings order_by_name state ≡ ok fp
      → now ≤ later
      → (Flows.consume_flow fp now s).0 ≡ ok (some f)
      → (complete_login o oidc settings order_by_name d' later state code'
          (complete_login o oidc settings order_by_name d now state code s).1).0
        ≡ err (authentication_error "authorization transaction is invalid or expired")
  complete_login_once d d' now later state code code' fp s h h' k passed found =
      without_flow d' later state code' fp
        (complete_login o oidc settings order_by_name d now state code s).1 h' k
        (consume_by_flows fp later _ _ (kept_after_consume d now state code fp s h k)
          ∙ consume_flow_once fp now s later passed found)
