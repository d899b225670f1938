-- ===== src/Auth/Repository/Flows.antt =====
-- services/authentication/pentagon5_auth/repository.py, login flows and login grants.
use pentagon5_foundation.Prelude.{
  ℕ, String, Bool, ◌&&◌, ◌||◌, Option, none, some, ◌∷◌, pure, lift, gets, ◌>>=◌, ◌>>◌, modify,
  raise_if, ◌==◌, ltb, str_eq, keep,
}
use pentagon5_foundation.Auth.Models.{integrity_error, Flow}
use pentagon5_foundation.Auth.Tables.{
  FlowRow, GrantRow, Query, exists, delete_where, one_or_none, transaction,
}

unfoldable pub put_flow : ℕ → String → String → String → ℕ → Query (Unit {0})
put_flow id fingerprint payload redirect_uri expires_at = transaction (do
  db ← gets (λ d. d)
  raise_if (exists (λ f. f.id == id || str_eq f.state_fingerprint fingerprint) db.flows)
      integrity_error
  modify (λ d. record d {
    flows =
        record {
          id = id;
          state_fingerprint = fingerprint;
          encrypted_payload = payload;
          redirect_uri = redirect_uri;
          expires_at = expires_at;
        }
        ∷ d.flows;
  }))

unfoldable pub flow_matches : String → ℕ → FlowRow → Bool
flow_matches fingerprint now f = str_eq f.state_fingerprint fingerprint && ltb now f.expires_at

abbrev pub as_flow : Option FlowRow → Option Flow
as_flow none = none
as_flow (some f) =
    some (record { encrypted_payload = f.encrypted_payload; redirect_uri = f.redirect_uri })

unfoldable pub consume_flow : String → ℕ → Query (Option Flow)
consume_flow fingerprint now = transaction (do
  rows ← gets (λ d. keep (flow_matches fingerprint now) d.flows)
  modify (λ d. record d { flows = delete_where (flow_matches fingerprint now) d.flows })
  row ← lift (one_or_none rows)
  pure (as_flow row))

unfoldable pub put_login_grant : ℕ → String → String → ℕ → Query (Unit {0})
put_login_grant id fingerprint payload expires_at = transaction (do
  db ← gets (λ d. d)
  raise_if (exists (λ g. g.id == id || str_eq g.code_fingerprint fingerprint) db.grants)
      integrity_error
  modify (λ d. record d {
    grants =
        record {
          id = id;
          code_fingerprint = fingerprint;
          encrypted_payload = payload;
          expires_at = expires_at;
        }
        ∷ d.grants;
  }))

unfoldable pub grant_matches : String → ℕ → GrantRow → Bool
grant_matches fingerprint now g = str_eq g.code_fingerprint fingerprint && ltb now g.expires_at

abbrev pub as_payload : Option GrantRow → Option String
as_payload none = none
as_payload (some g) = some g.encrypted_payload

unfoldable pub consume_login_grant : String → ℕ → Query (Option String)
consume_login_grant fingerprint now = transaction (do
  rows ← gets (λ d. keep (grant_matches fingerprint now) d.grants)
  modify (λ d. record d { grants = delete_where (grant_matches fingerprint now) d.grants })
  row ← lift (one_or_none rows)
  pure (as_payload row))
