-- ===== src/Auth/OidcClient/Endpoints.antt =====
-- services/authentication/pentagon5_auth/oidc.py: the provider's metadata, and where requests go.
use Prim.Native.String
use pentagon5_foundation.Prelude.{
  String, ◌≡◌, refl, Bool, true, ◌&&◌, ◌||◌, Option, none, some, List, [], ◌∷◌, Result, ok, err,
  and_then, and_then_parts, arith, inl, inr, ◌⊎◌, Result-cases, Option-cases, ap, ◌∙◌, subst, sym,
}
use pentagon5_foundation.Prelude.Dict.{Dict}
use pentagon5_foundation.Prelude.Json.{Json}
use pentagon5_foundation.Auth.Config.{Settings, is_local}
use pentagon5_foundation.Auth.OidcClient.{
  OidcError, ProviderMetadata, Web, Request, got, posted, Client, is_absolute, is_https,
  endpoints_allowed, discovered, discovered_in, fetch, post, store, metadata, token_form, exchange,
}

abbrev pub cached_allowed : (ProviderMetadata → Bool) → Option ProviderMetadata → Bool
cached_allowed allowed none = true
cached_allowed allowed (some m) = allowed m

-- Every form has been posted to an address that satisfies the test.
abbrev pub posts_to : (String → Bool) → List Request → Bool
posts_to test [] = true
posts_to test (got url ∷ rs) = posts_to test rs
posts_to test (posted url form ∷ rs) = test url && posts_to test rs

module _ {F K Byte : Type 0} (w : Web F K) (settings : Settings F Byte) where
  -- The addresses that may be used: absolute, and HTTPS but in development and in tests.
  abbrev pub allowed : String → Bool
  allowed url = is_absolute url && (is_local settings.runtime.environment || is_https url)

  -- The metadata that is cached is allowed, and so is every address that a form was posted to.
  abbrev pub IsSafe : Client → Type 0
  IsSafe c =
      (cached_allowed (endpoints_allowed w settings) c.cached ≡ true)
      × (posts_to allowed c.requests ≡ true)

  discovered_allowed :
      (document : Json F) {m : ProviderMetadata}
      → discovered_in w settings document ≡ ok m
      → endpoints_allowed w settings m ≡ true
  unfolding discovered_in discovered endpoints_allowed
  discovered_allowed document e = ground (arith, e)

  fetched-IsSafe : (url : String) (c : Client) → IsSafe c → IsSafe (fetch w settings url c).1
  unfolding fetch
  fetched-IsSafe url c h = h

  posted-IsSafe :
      (url : String) (form : Dict String) (c : Client)
      → allowed url ≡ true
      → IsSafe c
      → IsSafe (post w settings url form c).1
  unfolding post
  posted-IsSafe url form c a h = (h.0, ground (arith, a, h.1))

  stored-IsSafe :
      (r : Result OidcError ProviderMetadata) (c : Client)
      → ((m : ProviderMetadata) → r ≡ ok m → endpoints_allowed w settings m ≡ true)
      → IsSafe c
      → IsSafe (store w settings r c).1
  stored-IsSafe (ok m) c a h = (a m refl, h.1)
  stored-IsSafe (err e) c a h = h

  read_allowed :
      (r : Result OidcError (Json F)) (m : ProviderMetadata)
      → and_then r (discovered_in w settings) ≡ ok m
      → endpoints_allowed w settings m ≡ true
  read_allowed r m e =
      let (d, a, b) = and_then_parts r (discovered_in w settings) e in discovered_allowed d b

  metadata_cached :
      (c : Client) {m : ProviderMetadata} → c.cached ≡ some m → metadata w settings c ≡ (ok m, c)
  unfolding metadata
  metadata_cached c h = ground (arith, h)

  metadata_read :
      (c : Client)
      → c.cached ≡ none
      → metadata w settings c
        ≡ store w settings
            (and_then
              (w.get_json (String.◌++◌ settings.issuer "/.well-known/openid-configuration"))
              (discovered_in w settings))
            (fetch w settings (String.◌++◌ settings.issuer "/.well-known/openid-configuration") c).1
  unfolding metadata fetch
  metadata_read c h = ground (arith, h)

  metadata-IsSafe : (c : Client) → IsSafe c → IsSafe (metadata w settings c).1
  metadata-IsSafe c h = elim (Option-cases c.cached) [
    | inr (m, e) ↦ subst (λ o. IsSafe o.1) (sym (metadata_cached c e)) h
    | inl e ↦
        subst (λ o. IsSafe o.1) (sym (metadata_read c e))
          (stored-IsSafe _ _ (read_allowed _) (fetched-IsSafe _ c h))
  ]

  store_ok :
      (r : Result OidcError ProviderMetadata) (c : Client) {m : ProviderMetadata}
      → (store w settings r c).0 ≡ ok m
      → r ≡ ok m
  store_ok (ok a) c e = e
  store_ok (err x) c e = e

  metadata_found :
      (c : Client)
      → IsSafe c
      → (m : ProviderMetadata) → (metadata w settings c).0 ≡ ok m
      → endpoints_allowed w settings m ≡ true
  metadata_found c h m found = elim (Option-cases c.cached) [
    | inr (n, e) ↦
        cached_one n (ap (λ o. o.0) (metadata_cached c e))
          (subst (λ x. cached_allowed (endpoints_allowed w settings) x ≡ true) e h.0)
    | inl e ↦ read_allowed _ m (store_ok _ _ (sym (ap (λ o. o.0) (metadata_read c e)) ∙ found))
  ]
    where
      cached_one :
          (n : ProviderMetadata)
          → (metadata w settings c).0 ≡ ok n
          → endpoints_allowed w settings n ≡ true
          → endpoints_allowed w settings m ≡ true
      cached_one n same a = cc (same, found, a)

  token_endpoint_allowed :
      (m : ProviderMetadata)
      → endpoints_allowed w settings m ≡ true
      → allowed m.token_endpoint ≡ true
  unfolding endpoints_allowed
  token_endpoint_allowed m h = ground (arith, h)

  module _ (code verifier nonce : String) (c : Client) where
    -- The client once the code has been posted.
    abbrev after_post : ProviderMetadata → Client
    after_post m =
        (post w settings m.token_endpoint (token_form w settings code verifier)
          (metadata w settings c).1).1

    abbrev after_exchange : Client
    after_exchange = (exchange w settings code verifier nonce c).1

    exchange_state :
        (after_exchange ≡ (metadata w settings c).1)
        ⊎ ((m : ProviderMetadata) × ((metadata w settings c).0 ≡ ok m)
            × ((after_exchange ≡ after_post m)
                ⊎ (after_exchange ≡ (fetch w settings m.jwks_uri (after_post m)).1)))
    unfolding exchange post fetch
    exchange_state = elim (Result-cases (metadata w settings c).0) [
      | inr (x, a) ↦ inl (ground (arith, a))
      | inl (m, a) ↦ inr (m, a, posted_state m a)
    ]
      where
        posted_state :
            (m : ProviderMetadata)
            → (metadata w settings c).0 ≡ ok m
            → (after_exchange ≡ after_post m)
              ⊎ (after_exchange ≡ (fetch w settings m.jwks_uri (after_post m)).1)
        posted_state m a = ground (arith, a)

    -- Every exchange keeps the metadata and the posts safe: the client's secret and the code are posted
    -- only to an absolute address, and only to HTTPS outside development and tests.
    pub exchange-IsSafe : IsSafe c → IsSafe after_exchange
    exchange-IsSafe h = elim exchange_state [
      | inl e ↦ subst IsSafe (sym e) (metadata-IsSafe c h)
      | inr (m, found, states) ↦
          let form = token_form w settings code verifier in
          let posted_safe =
            posted-IsSafe m.token_endpoint form (metadata w settings c).1
              (token_endpoint_allowed m (metadata_found c h m found)) (metadata-IsSafe c h) in
          elim states [
            | inl e ↦ subst IsSafe (sym e) posted_safe
            | inr e ↦ subst IsSafe (sym e) (fetched-IsSafe m.jwks_uri (after_post m) posted_safe)
          ]
    ]

  -- Once metadata has been found it is kept, and found again without a request.
  pub metadata_once :
      (c : Client) {m : ProviderMetadata}
      → (metadata w settings c).0 ≡ ok m
      → metadata w settings (metadata w settings c).1 ≡ (ok m, (metadata w settings c).1)
  unfolding metadata fetch
  metadata_once c e = ground (arith, e)
