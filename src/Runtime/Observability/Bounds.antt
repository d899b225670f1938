-- ===== src/Runtime/Observability/Bounds.antt =====
-- backend/pentagon5_runtime/observability.py: how much of a body the application is given.
use pentagon5_foundation.Prelude.{
  ℕ, ◌+◌, ◌≤◌, ◌≡◌, String, Bool, true, Option, none, some, List, [], ◌∷◌, ok, ltb, leb, arith,
  Bool-cases, inl, inr,
}
use pentagon5_foundation.Runtime.Config.{RuntimeSettings}
use pentagon5_foundation.Runtime.Uuid7.Text.{Uuids}
use pentagon5_foundation.Prelude.Int.{ℤ}
use pentagon5_foundation.Runtime.Observability.{
  App, responds, raises, reads, Body, of_app, json, Response, serve,
}

-- The same application, with the bytes that it has been given as its body.
abbrev pub counting : {B : Type 0} → ℕ → App B → App ℕ
counting given (responds status body) = responds status given
counting given (raises e) = raises e
counting given (reads k) = reads (λ part. elim part [
  | none ↦ counting given (k none)
  | some n ↦ counting (given + n) (k (some n))
])

abbrev pub at_most : {F : Type 0} → ℕ → Body F ℕ → Bool
at_most maximum (of_app n) = leb n maximum
at_most maximum (json m) = true

module _ {F B : Type 0} (uuids : Uuids) (parse_int : String → Option ℤ)
    (settings : RuntimeSettings F) where
  given_within :
      (given received : ℕ) (parts : List ℕ) (app : App B) {r : Response F ℕ}
      → given ≤ received
      → given ≤ settings.max_body_bytes
      → serve uuids parse_int settings received parts (counting given app) ≡ ok r
      → at_most settings.max_body_bytes r.body ≡ true
  unfolding serve
  given_within given received parts (responds status body) h k e = ground (arith, e, k)
  given_within given received parts (raises x) h k e = ground (arith, e)
  given_within given received [] (reads f) {r = r} h k e =
      elim (Bool-cases (ltb settings.max_body_bytes received)) [
        | inl b ↦ given_within given received [] (f none) {r = r} h k (ground (arith, e, b))
        | inr b ↦
            given_within (given + 0) received [] (f (some 0)) {r = r} (omega (arith, h))
              (omega (arith, k)) (ground (arith, e, b))
      ]
  given_within given received (n ∷ parts) (reads f) {r = r} h k e =
      elim (Bool-cases (ltb settings.max_body_bytes (received + n))) [
        | inl b ↦
            given_within given (received + n) parts (f none) {r = r} (omega (arith, h)) k
              (ground (arith, e, b))
        | inr b ↦
            given_within (given + n) (received + n) parts (f (some n)) {r = r} (omega (arith, h))
              (ground (arith, h, b)) (ground (arith, e, b))
      ]

  -- Whatever the application does, and however the body is cut into parts, it has been given at most
  -- the configured number of bytes when it answers.
  pub serve-within :
      (parts : List ℕ) (app : App B) {r : Response F ℕ}
      → serve uuids parse_int settings 0 parts (counting 0 app) ≡ ok r
      → at_most settings.max_body_bytes r.body ≡ true
  serve-within parts app {r = r} e =
      given_within 0 0 parts app {r = r} (omega arith) (omega arith) e
