-- ===== src/Runtime/Observability/Responses.antt =====
-- backend/pentagon5_runtime/observability.py: the identifier of a response and its error envelope.
use pentagon5_foundation.Prelude.{
  ℕ, ◌≡◌, refl, String, Bool, true, false, Option, none, some, List, [], ◌∷◌, Result, ok, err,
  arith, eq_refl, ltb, ◌+◌, Bool-cases, inl, inr, and_then_parts,
}
use pentagon5_foundation.Prelude.Int.{ℤ}
use pentagon5_foundation.Prelude.Json.{Json, object, get, equals_text}
use pentagon5_foundation.Runtime.Config.{RuntimeSettings}
use pentagon5_foundation.Runtime.Envelopes.{error_envelope, base}
use pentagon5_foundation.Runtime.Uuid7.Text.{Uuids, is_uuid7}
use pentagon5_foundation.Runtime.Observability.{
  App, Body, of_app, json, Response, Request, Raised, body_too_large, timed_out, other_error,
  responds, raises, reads, is_denied, correlation_of, declared, serve, error_json, answered,
  observe,
}

abbrev pub correlation_in : {F : Type 0} → Option (Json F) → String → Bool
correlation_in (some (object metadata)) id = equals_text (get "correlationId" metadata) id
correlation_in _ id = false

-- An error's envelope carries the identifier.
abbrev pub carries : {F B : Type 0} → String → Body F B → Bool
carries id (of_app b) = true
carries id (json m) = correlation_in (get "metadata" m) id

correlation_valid :
    (uuids : Uuids) (supplied : Option String) (fresh : String)
    → is_uuid7 uuids fresh ≡ true
    → is_uuid7 uuids (correlation_of uuids supplied fresh) ≡ true
unfolding correlation_of
correlation_valid uuids none fresh h = ground (arith, h)
correlation_valid uuids (some s) fresh h = ground (arith, h)

module _ {F : Type 0} (B : Type 0) (uuids : Uuids) (parse_int : String → Option ℤ)
    (settings : RuntimeSettings F) where
  error_json-carries :
      (json_id now id : String) (status : ℕ) (error_code error_message : String) (retryable : Bool)
      → carries id
          (error_json {B = B} uuids parse_int settings json_id now id status error_code
            error_message retryable).body
        ≡ true
  unfolding error_json error_envelope base get
  error_json-carries json_id now id status error_code error_message retryable =
      ground (arith, eq_refl id)

module _ {F B : Type 0} (uuids : Uuids) (parse_int : String → Option ℤ)
    (settings : RuntimeSettings F) where
  served-carries :
      (received : ℕ) (parts : List ℕ) (app : App B) (id : String) {r : Response F B}
      → serve uuids parse_int settings received parts app ≡ ok r
      → carries id r.body ≡ true
  unfolding serve
  served-carries received parts (responds status body) id e = ground (arith, e)
  served-carries received parts (raises x) id e = ground (arith, e)
  served-carries received [] (reads f) id {r = r} e =
      elim (Bool-cases (ltb settings.max_body_bytes received)) [
        | inl b ↦ served-carries received [] (f none) id {r = r} (ground (arith, e, b))
        | inr b ↦ served-carries received [] (f (some 0)) id {r = r} (ground (arith, e, b))
      ]
  served-carries received (n ∷ parts) (reads f) id {r = r} e =
      elim (Bool-cases (ltb settings.max_body_bytes (received + n))) [
        | inl b ↦ served-carries (received + n) parts (f none) id {r = r} (ground (arith, e, b))
        | inr b ↦ served-carries (received + n) parts (f (some n)) id {r = r} (ground (arith, e, b))
      ]

  answered-carries :
      (json_id now id : String) (request : Request) (r : Result Raised (Response F B))
      → ((x : Response F B) → r ≡ ok x → carries id x.body ≡ true)
      → carries id (answered uuids parse_int settings json_id now id request r).body ≡ true
  unfolding answered
  answered-carries json_id now id request (ok r) h =
      elim (Bool-cases (is_denied uuids parse_int settings request r)) [
        | inl d ↦ rw d (
            error_json-carries B uuids parse_int settings json_id now id 400 "CORS_ORIGIN_DENIED"
              "Cross-origin request is not allowed" false)
        | inr d ↦ rw d (h r refl)
      ]
  answered-carries json_id now id request (err body_too_large) h =
      error_json-carries B uuids parse_int settings json_id now id _ _ _ _
  answered-carries json_id now id request (err timed_out) h =
      error_json-carries B uuids parse_int settings json_id now id _ _ _ _
  answered-carries json_id now id request (err other_error) h =
      error_json-carries B uuids parse_int settings json_id now id _ _ _ _

  -- Given that the generated UUID is one of version 7, every response has such an identifier, which is
  -- the one in the envelope if the middleware answers itself, and it is counted under its status.
  pub observe-identified :
      (fresh json_id now route : String) (request : Request) (parts : List ℕ) (app : App B)
      → is_uuid7 uuids fresh ≡ true
      → (is_uuid7 uuids
            (observe uuids parse_int settings fresh json_id now route request parts app).response_id
          ≡ true)
        × (carries
              (observe uuids parse_int settings fresh json_id now route request parts
                app).response_id
              (observe uuids parse_int settings fresh json_id now route request parts
                app).response.body
            ≡ true)
        × ((observe uuids parse_int settings fresh json_id now route request parts
              app).counted.status
            ≡ (observe uuids parse_int settings fresh json_id now route request parts
                app).response.status_code)
  unfolding observe
  observe-identified fresh json_id now route request parts app h = (
    correlation_valid uuids request.request_id fresh h,
    answered-carries json_id now (correlation_of uuids request.request_id fresh) request _ (λ r e.
        let (u, d, s) =
          and_then_parts (declared parse_int settings.max_body_bytes request.content_length)
            (λ _. serve uuids parse_int settings 0 parts app) e in
        served-carries 0 parts app (correlation_of uuids request.request_id fresh) s),
    refl,
  )
