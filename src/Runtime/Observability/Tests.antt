-- ===== src/Runtime/Observability/Tests.antt =====
-- The middleware before a small application.
use pentagon5_foundation.Prelude.{
  ℕ, ◌+◌, ◌*◌, ◌^◌, ◌≡◌, refl, String, true, Option, none, some, [], ◌∷◌,
}
use pentagon5_foundation.Prelude.Int.{ℤ, pos}
use pentagon5_foundation.Runtime.Config.{RuntimeSettings}
use pentagon5_foundation.Runtime.Uuid7.Text.{Uuids, is_uuid7}
use pentagon5_foundation.Runtime.Observability.{
  App, responds, reads, of_app, Request, Observed, serve, observe,
}
use pentagon5_foundation.Runtime.Observability.Bounds.{at_most, serve-within}
use pentagon5_foundation.Runtime.Observability.Responses.{carries, observe-identified}

-- One UUID of version 7, written "u".
abbrev one_uuid : Uuids
one_uuid = record { parse = λ s. some (7 * 2 ^ 76 + 2 * 2 ^ 62); show = λ n. "u" }

abbrev settings : RuntimeSettings ℕ
settings = record {
  service_name = "authentication";
  environment = "test";
  database_url = "postgresql://database";
  log_level = "INFO";
  otlp_endpoint = none;
  cors_origins = [];
  max_body_bytes = 8;
  request_timeout_seconds = 15;
}

-- It reads two parts, and goes on when the second one is too large.
abbrev reader : App ℕ
reader = reads (λ a. reads (λ b. responds 200 7))

abbrev request : Request
request = record { method = "POST"; request_id = none; content_length = some "12"; origin = none }

abbrev as_twelve : String → Option ℤ
as_twelve s = some (pos 12)

abbrev seen : Observed ℕ ℕ
seen = observe one_uuid as_twelve settings "u" "u" "t" "route" request (5 ∷ 7 ∷ []) reader

serve-within_example : at_most {F = ℕ} 8 (of_app 5) ≡ true
unfolding serve
serve-within_example =
    serve-within one_uuid as_twelve settings (5 ∷ 7 ∷ []) reader
      {r = record { status_code = 200; body = of_app 5 }} refl

observe-identified_example :
    (is_uuid7 one_uuid seen.response_id ≡ true)
    × (carries seen.response_id seen.response.body ≡ true)
    × (seen.counted.status ≡ seen.response.status_code)
unfolding is_uuid7
observe-identified_example =
    observe-identified one_uuid as_twelve settings "u" "u" "t" "route" request (5 ∷ 7 ∷ []) reader
      refl
