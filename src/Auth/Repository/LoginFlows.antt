-- ===== src/Auth/Repository/LoginFlows.antt =====
-- Login flows of services/authentication/pentagon5_auth/repository.py are found and used once.
use pentagon5_foundation.Prelude.{
  ℕ, String, true, false, ◌||◌, ◌==◌, ◌≤◌, ◌≡◌, Option, none, some, ◌∷◌, Result, ok, err, ltb,
  str_eq, keep, if◌then◌else◌, arith, inl, inr, Result-cases, eq_refl,
}
use pentagon5_foundation.Auth.Models.{Error, Flow}
use pentagon5_foundation.Auth.Tables.{Db, FlowRow, exists, delete_where, one_or_none}
use pentagon5_foundation.Auth.Tables.Laws.{keep-delete_where, keep-absent}
use pentagon5_foundation.Auth.Repository.Flows.{put_flow, flow_matches, as_flow, consume_flow}

matches_later :
    (fingerprint : String) (now later : ℕ)
    → now ≤ later
    → (f : FlowRow) → flow_matches fingerprint later f ≡ true
    → flow_matches fingerprint now f ≡ true
unfolding flow_matches
matches_later fingerprint now later h f e = ground arith

module _ (fingerprint : String) (now : ℕ) (db : Db) where
  abbrev without : Db
  without = record db { flows = delete_where (flow_matches fingerprint now) db.flows }

  pub consume_flow_lem :
      {r : Option FlowRow}
      → one_or_none (keep (flow_matches fingerprint now) db.flows) ≡ ok r
      → consume_flow fingerprint now db ≡ (ok (as_flow r), without)
  unfolding consume_flow
  consume_flow_lem h = ground arith

  consume_flow_err :
      {e : Error}
      → one_or_none (keep (flow_matches fingerprint now) db.flows) ≡ err e
      → consume_flow fingerprint now db ≡ (err e, db)
  unfolding consume_flow
  consume_flow_err h = ground arith

module _ (fingerprint : String) (now : ℕ) (db : Db) where
  found_state :
      {f : Flow}
      → (consume_flow fingerprint now db).0 ≡ ok (some f)
      → (consume_flow fingerprint now db).1 ≡ without fingerprint now db
  found_state e = elim (Result-cases (one_or_none (keep (flow_matches fingerprint now) db.flows))) [
    | inl (r, h) ↦ rw (consume_flow_lem fingerprint now db h)
    | inr (x, h) ↦ cc (consume_flow_err fingerprint now db h, e)
  ]

  -- A flow that has been consumed is not found again, at that time or later.
  pub consume_flow_once :
      (later : ℕ) {f : Flow}
      → now ≤ later
      → (consume_flow fingerprint now db).0 ≡ ok (some f)
      → (consume_flow fingerprint later (consume_flow fingerprint now db).1).0 ≡ ok none
  consume_flow_once later h e =
      let gone =
        keep-delete_where (flow_matches fingerprint now) (flow_matches fingerprint later) db.flows
          (matches_later fingerprint now later h) in
      rw (
        found_state e,
        consume_flow_lem fingerprint later (without fingerprint now db) {r = none}
            (unfold one_or_none in rw gone),
      )

module _ (id : ℕ) (fingerprint payload redirect_uri : String) (expires_at : ℕ) (db : Db) where
  abbrev put : Result Error (Unit {0}) × Db
  put = put_flow id fingerprint payload redirect_uri expires_at db

  abbrev new_flow : FlowRow
  new_flow = record {
    id = id;
    state_fingerprint = fingerprint;
    encrypted_payload = payload;
    redirect_uri = redirect_uri;
    expires_at = expires_at;
  }

  put_flow_lem :
      put.0 ≡ ok tt
      → (exists (λ f. f.id == id || str_eq f.state_fingerprint fingerprint) db.flows ≡ false)
        × (put.1 ≡ record db { flows = new_flow ∷ db.flows })
  unfolding put_flow
  put_flow_lem h = ground arith

  flow_rows :
      (t : ℕ)
      → exists (λ f. f.id == id || str_eq f.state_fingerprint fingerprint) db.flows ≡ false
      → one_or_none (keep (flow_matches fingerprint t) (new_flow ∷ db.flows))
        ≡ ok (if ltb t expires_at then some new_flow else none)
  unfolding keep flow_matches one_or_none
  flow_rows t h = ground (
    arith,
    eq_refl fingerprint,
    keep-absent (λ (f : FlowRow). f.id == id || str_eq f.state_fingerprint fingerprint)
        (flow_matches fingerprint t) db.flows h (λ f e. ground arith),
  )

  -- A flow that has been stored is found by its fingerprint exactly before it expires.
  pub consume-put_flow :
      (t : ℕ)
      → put.0 ≡ ok tt
      → (consume_flow fingerprint t put.1).0
        ≡ ok (
            if ltb t expires_at
            then some (record { encrypted_payload = payload; redirect_uri = redirect_uri })
            else none)
  consume-put_flow t h =
      let (fresh, state) = put_flow_lem h in
      rw
        (
          state,
          consume_flow_lem fingerprint t (record db { flows = new_flow ∷ db.flows })
              (flow_rows t fresh),
        )
        (ground arith)
