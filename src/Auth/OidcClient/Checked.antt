-- ===== src/Auth/OidcClient/Checked.antt =====
-- services/authentication/pentagon5_auth/oidc.py: what the claims that `exchange` returns have passed.
use pentagon5_foundation.Prelude.{
  String, ◌≡◌, true, Option, none, some, List, [], ◌∷◌, ok, and_then, and_then_parts, one_of, arith,
  inl, inr, Result-cases, ap, ◌∙◌, sym, keep,
}
use pentagon5_foundation.Prelude.Json.{Json, Members, text, object, get, equals_text}
use pentagon5_foundation.Auth.Config.{Settings}
use pentagon5_foundation.Auth.OidcClient.{
  Header, ProviderMetadata, Web, Client, get_of, entries, same_kid, matching, unique, algorithm_of,
  is_true, signing_key, decoded, checked_claims, claims_of, id_token_of, fetch, post, metadata,
  token_form, exchange,
}

abbrev pub kid_of : {F : Type 0} → Json F → Option (Json F)
kid_of (object d) = get "kid" d
kid_of _ = none

-- The keys that match.
abbrev pub with_kid : {F : Type 0} → Option String → List (Json F) → List (Json F)
with_kid kid keys = keep (λ key. same_kid kid (kid_of key)) keys

-- The claims are those that PyJWT decodes with the one key of the provider that has the token's `kid`,
-- with the token's algorithm, which is one of two, for this client and issuer; they have the nonce,
-- and the email is verified.
pub record IsChecked {F K Byte : Type 0} (w : Web F K) (settings : Settings F Byte) (nonce : String)
    (id_token : String) (jwks : Json F) (claims : Members F) : Type 0 where
  pub token_header : Header F
  pub algorithm : String
  pub keys : List (Json F)
  pub key : Json F
  pub of_header : (w.header id_token ≡ ok token_header) × (token_header.alg ≡ some (text algorithm))
  pub known : one_of algorithm ("RS256" ∷ "ES256" ∷ []) ≡ true
  pub listed : and_then (get_of "keys" jwks) entries ≡ ok keys
  pub only : with_kid token_header.kid keys ≡ key ∷ []
  pub verified : decoded w settings id_token algorithm key ≡ ok claims
  pub same_nonce : equals_text (get "nonce" claims) nonce ≡ true
  pub email : is_true (get "email_verified" claims) ≡ true

module _ {F : Type 0} where
  matching_lem :
      (kid : Option String) (keys : List (Json F)) {found : List (Json F)}
      → matching kid keys ≡ ok found
      → found ≡ with_kid kid keys
  unfolding matching keep
  matching_lem kid [] e = ground (arith, e)
  matching_lem kid (object d ∷ keys) {found = found} e = elim (Result-cases (matching kid keys)) [
    | inl (rest, r) ↦ let same = matching_lem kid keys r in ground (arith, e, r, same)
    | inr (x, r) ↦ ground (arith, e, r)
  ]
  matching_lem kid (_ ∷ keys) e = ground (arith, e)

  unique_lem : (keys : List (Json F)) {key : Json F} → unique keys ≡ ok key → keys ≡ key ∷ []
  unfolding unique
  unique_lem keys e = ground (arith, e)

  algorithm_lem :
      (v : Option (Json F)) {a : String}
      → algorithm_of v ≡ ok a
      → (v ≡ some (text a)) × (one_of a ("RS256" ∷ "ES256" ∷ []) ≡ true)
  unfolding algorithm_of
  algorithm_lem v e = ground (arith, e)

module _ {F K Byte : Type 0} (w : Web F K) (settings : Settings F Byte) where
  signing_key_lem :
      (kid : Option String) (jwks : Json F) {key : Json F}
      → signing_key w settings kid jwks ≡ ok key
      → (keys : List (Json F)) × (and_then (get_of "keys" jwks) entries ≡ ok keys)
        × (with_kid kid keys ≡ key ∷ [])
  unfolding signing_key
  signing_key_lem kid jwks e =
      let (v, a, e) =
        and_then_parts (get_of "keys" jwks)
          (λ found. and_then (entries found) λ keys. and_then (matching kid keys) unique) e in
      let (keys, b, e) =
        and_then_parts (entries v) (λ keys. and_then (matching kid keys) unique) e in
      let (found, c, e) = and_then_parts (matching kid keys) unique e in
      (keys, ap (λ r. and_then r entries) a ∙ b, sym (matching_lem kid keys c) ∙ unique_lem found e)

  checked_claims_lem :
      (nonce : String) (v : Members F) {claims : Members F}
      → checked_claims w settings nonce v ≡ ok claims
      → (v ≡ claims)
        × (equals_text (get "nonce" claims) nonce ≡ true)
        × (is_true (get "email_verified" claims) ≡ true)
  unfolding checked_claims
  checked_claims_lem nonce v e = ground (arith, e)

  claims_of-IsChecked :
      (nonce id_token : String) (jwks : Json F) {claims : Members F}
      → claims_of w settings nonce id_token jwks ≡ ok claims
      → IsChecked w settings nonce id_token jwks claims
  unfolding claims_of
  claims_of-IsChecked nonce id_token jwks {claims = claims} e =
      let (h, a, e) =
        and_then_parts (w.header id_token)
          (λ h. and_then (algorithm_of h.alg) λ a.
            and_then (signing_key w settings h.kid jwks)
              λ k. and_then (decoded w settings id_token a k) (checked_claims w settings nonce))
          e in
      let (algorithm, b, e) =
        and_then_parts (algorithm_of h.alg)
          (λ a.
            and_then (signing_key w settings h.kid jwks)
              λ k. and_then (decoded w settings id_token a k) (checked_claims w settings nonce))
          e in
      let (key, c, e) =
        and_then_parts (signing_key w settings h.kid jwks)
          (λ k.
            and_then (decoded w settings id_token algorithm k) (checked_claims w settings nonce))
          e in
      let (v, d, e) =
        and_then_parts (decoded w settings id_token algorithm key) (checked_claims w settings nonce)
          e in
      let (keys, listed, only) = signing_key_lem h.kid jwks c in
      let (same, n, m) = checked_claims_lem nonce v e in
      let (alg, known) = algorithm_lem h.alg b in
      record {
        token_header = h;
        algorithm = algorithm;
        keys = keys;
        key = key;
        of_header = (a, alg);
        known = known;
        listed = listed;
        only = only;
        verified = d ∙ ap ok same;
        same_nonce = n;
        email = m;
      }

  abbrev pub Answered :
      (m : ProviderMetadata) (code verifier nonce : String) (c : Client) (claims : Members F)
      → Type 0
  Answered m code verifier nonce c claims =
      (response : Json F) × (id_token : String) × (jwks : Json F) × (w.post_json m.token_endpoint
          (token_form w settings code verifier)
        ≡ ok response)
      × (id_token_of w settings response ≡ ok id_token)
      × (w.get_json m.jwks_uri ≡ ok jwks)
      × IsChecked w settings nonce id_token jwks claims

  -- Claims that `exchange` returns come from the answer of the token endpoint, and have passed every
  -- check.
  pub exchange-IsChecked :
      (code verifier nonce : String) (c : Client) {claims : Members F}
      → (exchange w settings code verifier nonce c).0 ≡ ok claims
      → (m : ProviderMetadata) × ((metadata w settings c).0 ≡ ok m)
        × Answered m code verifier nonce c claims
  unfolding exchange post fetch
  exchange-IsChecked code verifier nonce c {claims = claims} e =
      elim (Result-cases (metadata w settings c).0) [
        | inr (x, a) ↦ ground (arith, e, a)
        | inl (m, a) ↦
            elim (Result-cases
              (w.post_json m.token_endpoint (token_form w settings code verifier))) [
                | inr (x, b) ↦ ground (arith, e, a, b)
                | inl (response, b) ↦ elim (Result-cases (id_token_of w settings response)) [
                  | inr (x, d) ↦ ground (arith, e, a, b, d)
                  | inl (id_token, d) ↦ elim (Result-cases (w.get_json m.jwks_uri)) [
                    | inr (x, f) ↦ ground (arith, e, a, b, d, f)
                    | inl (jwks, f) ↦ (
                      m,
                      a,
                      (
                        response,
                        id_token,
                        jwks,
                        b,
                        d,
                        f,
                        claims_of-IsChecked nonce id_token jwks (ground (arith, e, a, b, d, f)),
                      ),
                    )
                  ]
                ]
              ]
      ]
