-- ===== src/Auth/Service/Sealing.antt =====
-- services/authentication/pentagon5_auth/service.py: what `_seal` writes, `_open` reads, and what a
-- login grant gives for its code.
use pentagon5_foundation.Prelude.{
  ℕ, zero, suc, ◌+◌, String, ◌++◌, ◌≡◌, refl, ap, Option, none, some, List, [], ◌∷◌, Result, ok,
  err, length, ltb, true, str_eq, if◌then◌else◌, arith, false, ◌∙◌, eq_refl,
}
use pentagon5_foundation.Prelude.Dict.{Dict, lookup}
use pentagon5_foundation.Auth.Models.{Error, Principal, SessionGrant, LoginRedirect}
use pentagon5_foundation.Auth.Tables.{Db, GrantRow}
use pentagon5_foundation.Auth.Repository.Flows as Flows
use pentagon5_foundation.Auth.Repository.Grants.{consume-put_login_grant}
use pentagon5_foundation.Auth.Repository.Sessions as Sessions
use pentagon5_foundation.Auth.Config.{Settings}
use pentagon5_foundation.Auth.Service.Externals.{Outside, Oidc, IsInverse, texts}
use pentagon5_foundation.Auth.Service.{
  first, after, seal, unseal, decoded_document, required, grant_data, authenticate, fingerprint,
  granted, exchange_login_grant, store_grant, random_token, Draws, seconds,
}

first-append : {A : Type 0} (n : ℕ) (a b : List A) → length a ≡ n → first n (a ++ b) ≡ a
first-append zero [] b h = refl
first-append zero (x ∷ a) b h = absurd (omega (arith, h))
first-append (suc n) [] b h = absurd (omega (arith, h))
first-append (suc n) (x ∷ a) b h = ap (λ t. x ∷ t) (first-append n a b (omega (arith, h)))

after-append : {A : Type 0} (n : ℕ) (a b : List A) → length a ≡ n → after n (a ++ b) ≡ b
after-append zero [] b h = refl
after-append zero (x ∷ a) b h = absurd (omega (arith, h))
after-append (suc n) [] b h = absurd (omega (arith, h))
after-append (suc n) (x ∷ a) b h = after-append n a b (omega (arith, h))

module _ {F Byte : Type 0} (o : Outside Byte) (oidc : Oidc) (settings : Settings F Byte)
    (order_by_name : List String → List String) where
  -- What has been sealed with a nonce of 12 bytes is read back under the same associated data.
  pub unseal-seal :
      IsInverse o
      → (nonce : List Byte) (payload : Dict String) (associated : String) → length nonce ≡ 12
      → unseal o oidc settings order_by_name
          (seal o oidc settings order_by_name nonce payload associated)
          associated
        ≡ ok (texts payload)
  unfolding unseal seal decoded_document
  unseal-seal inverse nonce payload associated h =
      let cipher = o.encrypt nonce (o.dumps payload) associated in
      ground (
        arith,
        inverse.decoded (nonce ++ cipher),
        first-append 12 nonce cipher h,
        after-append 12 nonce cipher h,
        inverse.decrypted nonce (o.dumps payload) associated,
        inverse.loaded payload,
      )

  consumed_state :
      (fp : String) (now : ℕ) (db : Db)
      → (Flows.consume_login_grant fp now db).1
        ≡ record db { grants = (Flows.consume_login_grant fp now db).1.grants }
  unfolding Flows.consume_login_grant
  consumed_state fp now db = ground arith

  put_state :
      (id : ℕ) (fp payload : String) (expires_at : ℕ) (db : Db)
      → (Flows.put_login_grant id fp payload expires_at db).1
        ≡ record db { grants = (Flows.put_login_grant id fp payload expires_at db).1.grants }
  unfolding Flows.put_login_grant
  put_state id fp payload expires_at db = ground arith

  -- `authenticate` does not depend on the grants.
  authenticate_grants :
      (token : String) (later : ℕ) (db : Db) (gs : List GrantRow)
      → (authenticate o oidc settings order_by_name token later (record db { grants = gs })).0
        ≡ (authenticate o oidc settings order_by_name token later db).0
  unfolding authenticate fingerprint Sessions.resolve_session Sessions.joined Sessions.principal
      Sessions.role_names Sessions.permission_codes
  authenticate_grants token later db gs = ground arith

  abbrev pub answer_of : String → Result Error Principal → Result Error SessionGrant
  answer_of token (ok p) = ok (record { token = token; principal = p })
  answer_of token (err e) = err e

  granted_lem :
      (later : ℕ) (sealed token : String) (db : Db)
      → unseal o oidc settings order_by_name sealed grant_data
        ≡ ok (texts (("session_token", token) ∷ []))
      → str_eq token "" ≡ false
      → (granted o oidc settings order_by_name later (some sealed) db).0
        ≡ answer_of token (authenticate o oidc settings order_by_name token later db).0
  unfolding granted required lookup
  granted_lem later sealed token db h k = ground (arith, eq_refl "session_token")

  module _ (d : Draws Byte) (now : ℕ) (db : Db) where
    abbrev put : Result Error (Unit {0}) × Db
    put =
        Flows.put_login_grant d.grant_id (o.hmac_hex settings.hmac_key d.grant_code)
          (seal o oidc settings order_by_name d.nonce (("session_token", d.token) ∷ []) grant_data)
          (now + seconds settings.login_grant_ttl_seconds) db

    stored :
        {r : LoginRedirect}
        → (store_grant o oidc settings order_by_name d now db).0 ≡ ok r
        → (r.code ≡ d.grant_code)
          × (ltb (length settings.hmac_key) 32 ≡ false)
          × (put.0 ≡ ok tt)
          × ((store_grant o oidc settings order_by_name d now db).1 ≡ put.1)
    unfolding store_grant random_token fingerprint
    stored e = ground arith

    exchanged :
        (at later : ℕ) (s : Db) {found : Option String}
        → ltb (length settings.hmac_key) 32 ≡ false
        → str_eq d.grant_code "" ≡ false
        → (Flows.consume_login_grant (o.hmac_hex settings.hmac_key d.grant_code) at s).0 ≡ ok found
        → exchange_login_grant o oidc settings order_by_name at later d.grant_code s
          ≡ granted o oidc settings order_by_name later found
              (Flows.consume_login_grant (o.hmac_hex settings.hmac_key d.grant_code) at s).1
    unfolding exchange_login_grant fingerprint
    exchanged at later s long nonempty h = ground arith

    authenticate_after :
        (token : String) (at later : ℕ) (fp : String)
        → (authenticate o oidc settings order_by_name token later
            (Flows.consume_login_grant fp at put.1).1).0
          ≡ (authenticate o oidc settings order_by_name token later db).0
    authenticate_after token at later fp =
        let answer : Db → Result Error Principal =
          λ s. (authenticate o oidc settings order_by_name token later s).0 in
        ap answer (consumed_state fp at put.1)
        ∙ authenticate_grants token later put.1 (Flows.consume_login_grant fp at put.1).1.grants
        ∙ ap answer (
            put_state d.grant_id (o.hmac_hex settings.hmac_key d.grant_code)
              (seal o oidc settings order_by_name d.nonce (("session_token", d.token) ∷ [])
                grant_data)
              (now + seconds settings.login_grant_ttl_seconds) db)
        ∙ authenticate_grants token later db put.1.grants

    -- The code of a stored grant gives, before the grant expires, the token of the new session with
    -- what `authenticate` says of the token at that time.
    pub exchange-store_grant :
        (at later : ℕ) {r : LoginRedirect}
        → IsInverse o
        → length d.nonce ≡ 12
        → str_eq d.grant_code "" ≡ false
        → str_eq d.token "" ≡ false
        → (store_grant o oidc settings order_by_name d now db).0 ≡ ok r
        → ltb at (now + seconds settings.login_grant_ttl_seconds) ≡ true
        → (exchange_login_grant o oidc settings order_by_name at later r.code
            (store_grant o oidc settings order_by_name d now db).1).0
          ≡ answer_of d.token (authenticate o oidc settings order_by_name d.token later db).0
    exchange-store_grant at later inverse nonce_length code token e early =
        let (same_code, long, done, state) = stored e in
        let fp = o.hmac_hex settings.hmac_key d.grant_code in
        let payload =
          seal o oidc settings order_by_name d.nonce (("session_token", d.token) ∷ []) grant_data in
        let found =
          consume-put_login_grant d.grant_id fp payload
            (now + seconds settings.login_grant_ttl_seconds) db at done
          ∙ ap (λ b. ok (if b then some payload else none)) early in
        let opened =
          unseal-seal inverse d.nonce (("session_token", d.token) ∷ []) grant_data nonce_length in
        rw
          (
            same_code,
            state,
            exchanged at later put.1 long code found,
            granted_lem later payload d.token (Flows.consume_login_grant fp at put.1).1 opened
                token,
            authenticate_after d.token at later fp,
          )
          refl
