-- ===== src/Auth/Repository/Grants.antt =====
-- Login grants of services/authentication/pentagon5_auth/repository.py are found and used once.
use pentagon5_foundation.Prelude.{
  ℕ, String, true, false, ◌||◌, ◌==◌, ◌≤◌, ◌≡◌, Option, none, some, ◌∷◌, Result, ok, err, ltb,
  str_eq, keep, if◌then◌else◌, arith, inl, inr, Result-cases, eq_refl,
}
use pentagon5_foundation.Auth.Models.{Error}
use pentagon5_foundation.Auth.Tables.{Db, GrantRow, GrantRow, exists, delete_where, one_or_none}
use pentagon5_foundation.Auth.Tables.Laws.{keep-delete_where, keep-absent}
use pentagon5_foundation.Auth.Repository.Flows.{
  put_login_grant, grant_matches, as_payload, consume_login_grant,
}

matches_later :
    (fingerprint : String) (now later : ℕ)
    → now ≤ later
    → (f : GrantRow) → grant_matches fingerprint later f ≡ true
    → grant_matches fingerprint now f ≡ true
unfolding grant_matches
matches_later fingerprint now later h f e = ground arith

module _ (fingerprint : String) (now : ℕ) (db : Db) where
  abbrev without : Db
  without = record db { grants = delete_where (grant_matches fingerprint now) db.grants }

  pub consume_login_grant_lem :
      {r : Option GrantRow}
      → one_or_none (keep (grant_matches fingerprint now) db.grants) ≡ ok r
      → consume_login_grant fingerprint now db ≡ (ok (as_payload r), without)
  unfolding consume_login_grant
  consume_login_grant_lem h = ground arith

  consume_login_grant_err :
      {e : Error}
      → one_or_none (keep (grant_matches fingerprint now) db.grants) ≡ err e
      → consume_login_grant fingerprint now db ≡ (err e, db)
  unfolding consume_login_grant
  consume_login_grant_err h = ground arith

module _ (fingerprint : String) (now : ℕ) (db : Db) where
  found_state :
      {f : String}
      → (consume_login_grant fingerprint now db).0 ≡ ok (some f)
      → (consume_login_grant fingerprint now db).1 ≡ without fingerprint now db
  found_state e =
      elim (Result-cases (one_or_none (keep (grant_matches fingerprint now) db.grants))) [
        | inl (r, h) ↦ rw (consume_login_grant_lem fingerprint now db h)
        | inr (x, h) ↦ cc (consume_login_grant_err fingerprint now db h, e)
      ]

  -- A login grant that has been consumed is not found again, at that time or later.
  pub consume_login_grant_once :
      (later : ℕ) {f : String}
      → now ≤ later
      → (consume_login_grant fingerprint now db).0 ≡ ok (some f)
      → (consume_login_grant fingerprint later (consume_login_grant fingerprint now db).1).0
        ≡ ok none
  consume_login_grant_once later h e =
      let gone =
        keep-delete_where (grant_matches fingerprint now) (grant_matches fingerprint later)
          db.grants (matches_later fingerprint now later h) in
      rw (
        found_state e,
        consume_login_grant_lem fingerprint later (without fingerprint now db) {r = none}
            (unfold one_or_none in rw gone),
      )

module _ (id : ℕ) (fingerprint payload : String) (expires_at : ℕ) (db : Db) where
  abbrev put : Result Error (Unit {0}) × Db
  put = put_login_grant id fingerprint payload expires_at db

  abbrev new_grant : GrantRow
  new_grant = record {
    id = id;
    code_fingerprint = fingerprint;
    encrypted_payload = payload;
    expires_at = expires_at;
  }

  put_login_grant_lem :
      put.0 ≡ ok tt
      → (exists (λ g. g.id == id || str_eq g.code_fingerprint fingerprint) db.grants ≡ false)
        × (put.1 ≡ record db { grants = new_grant ∷ db.grants })
  unfolding put_login_grant
  put_login_grant_lem h = ground arith

  grant_rows :
      (t : ℕ)
      → exists (λ g. g.id == id || str_eq g.code_fingerprint fingerprint) db.grants ≡ false
      → one_or_none (keep (grant_matches fingerprint t) (new_grant ∷ db.grants))
        ≡ ok (if ltb t expires_at then some new_grant else none)
  unfolding keep grant_matches one_or_none
  grant_rows t h = ground (
    arith,
    eq_refl fingerprint,
    keep-absent (λ (g : GrantRow). g.id == id || str_eq g.code_fingerprint fingerprint)
        (grant_matches fingerprint t) db.grants h (λ f e. ground arith),
  )

  -- A login grant that has been stored is found by its fingerprint exactly before it expires.
  pub consume-put_login_grant :
      (t : ℕ)
      → put.0 ≡ ok tt
      → (consume_login_grant fingerprint t put.1).0
        ≡ ok (if ltb t expires_at then some payload else none)
  consume-put_login_grant t h =
      let (fresh, state) = put_login_grant_lem h in
      rw
        (
          state,
          consume_login_grant_lem fingerprint t (record db { grants = new_grant ∷ db.grants })
              (grant_rows t fresh),
        )
        (ground arith)
