-- ===== src/App/Sockets/Bounds.antt =====
-- services/authentication/pentagon5_auth/app.py: the subscriptions of one WebSocket.
use pentagon5_foundation.Prelude.{
  ℕ, String, ◌≡◌, refl, ◌≤◌, Bool, true, false, ◌&&◌, not, Option, none, some, List, [], ◌∷◌,
  Result, ok, err, leb, str_eq, one_of, length, arith, eq_iff, inl, inr, subst,
}
use pentagon5_foundation.Auth.Config.{Settings}
use pentagon5_foundation.App.Control.{
  Parsing, Control, ControlError, value_error, type_error, recursion_error, websocket_control,
}
use pentagon5_foundation.App.Sockets.Rounds.{Round-cases, loop_goes_on, loop_ends}
use pentagon5_foundation.App.Sockets.{
  Incoming, disconnect, message, Stamp, Round, goes_on, ends, add_id, discard, discard_id, has_id,
  over_cap, control_round, checked_round, round, loop,
}

-- Each id stands once, and there are at most so many.
abbrev pub distinct : List String → Bool
distinct [] = true
distinct (x ∷ xs) = not (one_of x xs) && distinct xs

abbrev pub within : ℕ → List String → Bool
within cap ids = distinct ids && leb (length ids) cap

pub one_of-discard :
    (x id : String) (ids : List String)
    → one_of x (discard id ids) ≡ (one_of x ids && not (str_eq x id))
unfolding one_of discard
one_of-discard x id [] = refl
one_of-discard x id (y ∷ ys) =
    ground (arith, eq_iff x y, eq_iff y id, eq_iff x id, one_of-discard x id ys)

discard-distinct :
    (id : String) (ids : List String) → distinct ids ≡ true → distinct (discard id ids) ≡ true
unfolding discard
discard-distinct id [] h = h
discard-distinct id (y ∷ ys) h = ground (arith, one_of-discard y id ys, discard-distinct id ys)

length-discard : (id : String) (ids : List String) → length (discard id ids) ≤ length ids
unfolding discard
length-discard id [] = omega arith
length-discard id (y ∷ ys) = ground (arith, length-discard id ys)

discard-within :
    (cap : ℕ) (id : Option String) (ids : List String)
    → within cap ids ≡ true
    → within cap (discard_id id ids) ≡ true
discard-within cap none ids h = h
discard-within cap (some id) ids h = ground (arith, discard-distinct id ids, length-discard id ids)

add-within :
    (cap : ℕ) (id : Option String) (ids : List String)
    → within cap ids ≡ true
    → (not (has_id id ids) && leb cap (length ids)) ≡ false
    → within cap (add_id id ids) ≡ true
unfolding add_id
add-within cap none ids h k = h
add-within cap (some id) ids h k = ground arith

module _ {F Byte : Type 0} (p : Parsing F) (settings : Settings F Byte) (channel : String) where
  abbrev Keeps : List String → Round F → Type 0
  Keeps ids (goes_on ids' out) =
      within settings.ws_max_subscriptions ids ≡ true
      → within settings.ws_max_subscriptions ids' ≡ true
  Keeps ids (ends e out) = Unit

  control_round-Keeps :
      (s : Stamp) (c : Control) (ids : List String)
      → Keeps ids (control_round p settings channel s c ids)
  unfolding control_round over_cap
  control_round-Keeps s c ids = ground (
    arith,
    add-within settings.ws_max_subscriptions c.subscription_id ids,
    discard-within settings.ws_max_subscriptions c.subscription_id ids,
  )

  checked_round-Keeps :
      (s : Stamp) (r : Result ControlError Control) (ids : List String)
      → Keeps ids (checked_round p settings channel s r ids)
  unfolding checked_round
  checked_round-Keeps s (ok c) ids = control_round-Keeps s c ids
  checked_round-Keeps s (err (value_error e)) ids = tt
  checked_round-Keeps s (err type_error) ids = tt
  checked_round-Keeps s (err recursion_error) ids = tt

  round-Keeps :
      (s : Stamp) (m : Incoming) (ids : List String) → Keeps ids (round p settings channel s m ids)
  unfolding round
  round-Keeps s disconnect ids = tt
  round-Keeps s (message none) ids = tt
  round-Keeps s (message (some frame)) ids =
      ground (arith, checked_round-Keeps s (websocket_control p frame channel) ids)

  -- Whatever a client sends, a WebSocket's subscriptions are distinct and at most the maximum.
  pub loop-within :
      (messages : List (Stamp × Incoming)) (ids : List String)
      → within settings.ws_max_subscriptions ids ≡ true
      → within settings.ws_max_subscriptions (loop p settings channel messages ids).subscriptions
        ≡ true
  unfolding loop
  loop-within [] ids h = h
  loop-within ((s, m) ∷ rest) ids h =
      let kept = round-Keeps s m ids in
      elim (Round-cases (round p settings channel s m ids)) [
        | inl (ids', out, e) ↦
            let on = subst (Keeps ids) e kept h in
            rw (loop_goes_on p settings channel s m rest ids e) (loop-within rest ids' on)
        | inr (x, out, e) ↦ rw (loop_ends p settings channel s m rest ids e) h
      ]
