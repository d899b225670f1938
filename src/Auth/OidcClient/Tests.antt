-- ===== src/Auth/OidcClient/Tests.antt =====
-- The OIDC client with a provider that answers every address with one document.
use pentagon5_foundation.Prelude.{ℕ, ◌≡◌, refl, true, none, some, [], ok, one_of}
use pentagon5_foundation.Prelude.Json.{
  Members, end, member, bool, text, array, object, nil, cons, get, elements,
}
use pentagon5_foundation.Auth.Service.Tests.{settings}
use pentagon5_foundation.Auth.OidcClient.{
  ProviderMetadata, Web, Client, entries, same_kid, matching, unique, algorithm_of, endpoint_of,
  endpoints_allowed, discovered, discovered_in, fetch, post, metadata, id_token_of, signing_key,
  checked_claims, decoded, claims_of, exchange,
}
use pentagon5_foundation.Auth.OidcClient.Endpoints.{IsSafe, exchange-IsSafe}
use pentagon5_foundation.Auth.OidcClient.Checked.{Answered, exchange-IsChecked}

abbrev document : Members ℕ
document = member "issuer" (text "issuer") (
    member "authorization_endpoint" (text "https://a") (
      member "token_endpoint" (text "https://t") (
        member "jwks_uri" (text "https://k")
          (member "keys" (array (cons (object (member "kid" (text "k") end)) nil)) end))))

abbrev claims : Members ℕ
claims = member "nonce" (text "n") (member "email_verified" (bool true) end)

abbrev web : Web ℕ ℕ
web = record {
  get_json = λ url. ok (object document);
  post_json = λ url form. ok (object (member "id_token" (text "token") end));
  show = λ v. "";
  urlencode = λ d. "";
  header = λ t. ok (record { alg = some (text "RS256"); kid = some "k" });
  key_of = λ key. ok 0;
  decode = λ t key demands. ok claims;
}

abbrev fresh : Client
fresh = record { cached = none; requests = [] }

unfoldable running : ℕ
unfolding entries same_kid matching unique algorithm_of endpoint_of endpoints_allowed discovered
    discovered_in fetch post metadata id_token_of signing_key checked_claims decoded claims_of
    exchange get elements one_of
running = 0

exchange-IsSafe_example : IsSafe web settings (exchange web settings "code" "verifier" "n" fresh).1
exchange-IsSafe_example = exchange-IsSafe web settings "code" "verifier" "n" fresh (refl, refl)

exchange-IsChecked_example :
    (m : ProviderMetadata) × ((metadata web settings fresh).0 ≡ ok m)
    × Answered web settings m "code" "verifier" "n" fresh claims
unfolding running
exchange-IsChecked_example = exchange-IsChecked web settings "code" "verifier" "n" fresh refl
