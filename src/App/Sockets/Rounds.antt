-- ===== src/App/Sockets/Rounds.antt =====
-- services/authentication/pentagon5_auth/app.py: the loop of the WebSocket route, round by round.
use pentagon5_foundation.Prelude.{String, ◌≡◌, refl, ◌⊎◌, inl, inr, some, List, ◌∷◌, ◌++◌, arith}
use pentagon5_foundation.Auth.Config.{Settings}
use pentagon5_foundation.App.Control.{Parsing}
use pentagon5_foundation.App.Sockets.{
  Incoming, Stamp, Sent, Ending, Round, goes_on, ends, round, loop,
}

pub Round-cases :
    {F : Type 0} (r : Round F)
    → ((ids : List String) × (out : List (Sent F)) × (r ≡ goes_on ids out))
      ⊎ ((e : Ending) × (out : List (Sent F)) × (r ≡ ends e out))
Round-cases (goes_on ids out) = inl (ids, out, refl)
Round-cases (ends e out) = inr (e, out, refl)

module _ {F Byte : Type 0} (p : Parsing F) (settings : Settings F Byte) (channel : String)
    (s : Stamp) (m : Incoming) (rest : List (Stamp × Incoming)) (ids : List String) where
  pub loop_goes_on :
      {ids' : List String} {out : List (Sent F)}
      → round p settings channel s m ids ≡ goes_on ids' out
      → loop p settings channel ((s, m) ∷ rest) ids ≡ record (loop p settings channel rest ids') {
        sent = out ++ (loop p settings channel rest ids').sent;
      }
  unfolding loop
  loop_goes_on h = ground (arith, h)

  pub loop_ends :
      {e : Ending} {out : List (Sent F)}
      → round p settings channel s m ids ≡ ends e out
      → loop p settings channel ((s, m) ∷ rest) ids
        ≡ record { subscriptions = ids; sent = out; ending = some e }
  unfolding loop
  loop_ends h = ground (arith, h)
