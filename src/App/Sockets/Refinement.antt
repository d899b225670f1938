-- ===== src/App/Sockets/Refinement.antt =====
-- services/authentication/pentagon5_auth/app.py: the subscriptions of a WebSocket as an abstract set.
use pentagon5_foundation.Prelude.{
  String, ◌≡◌, refl, sym, ap, ◌∙◌, Bool, true, false, Option, none, some, List, [], ◌∷◌, Result, ok,
  err, is_none, str_eq, one_of, if◌then◌else◌, arith, inl, inr, subst, eq_iff, Option-cases,
}
use pentagon5_foundation.Auth.Config.{Settings}
use pentagon5_foundation.App.Control.{
  Parsing, Control, ControlError, value_error, type_error, recursion_error, websocket_control,
}
use pentagon5_foundation.App.Sockets.Rounds.{Round-cases, loop_goes_on, loop_ends}
use pentagon5_foundation.App.Sockets.Bounds.{one_of-discard}
use pentagon5_foundation.App.Sockets.{
  Incoming, disconnect, message, Stamp, Sent, close, Ending, returned, answers, Round, goes_on,
  ends, add_id, discard_id, over_cap, control_round, checked_round, round, loop,
}

-- The set that holds an id exactly if the last operation on it is a subscription; `b` says whether it
-- held the id before.
abbrev pub decide : Control → String → Bool → Bool
decide c id b = elim c.subscription_id [
  | none ↦ b
  | some i ↦
      if str_eq i id
      then (if str_eq c.operation "subscribe"
          then true
          else if str_eq c.operation "unsubscribe"
          then false
          else b)
      else b
]

abbrev pub after : List Control → String → Bool → Bool
after [] id b = b
after (c ∷ cs) id b = after cs id (decide c id b)

one_of-add :
    (i id : String) (ids : List String)
    → one_of id (add_id (some i) ids) ≡ (if str_eq i id then true else one_of id ids)
unfolding add_id one_of
one_of-add i id ids = ground (arith, eq_iff i id, eq_iff id i)

abbrev pub accepted : Result ControlError Control → Option Control
accepted (ok c) = some c
accepted (err e) = none

by_tests :
    {A : Type 0} {x a d n : A} (subscribe over unsubscribe : Bool) (P : A → Type 0)
    → P x
    → (subscribe ≡ true → P a)
    → (subscribe ≡ false → unsubscribe ≡ true → P d)
    → (subscribe ≡ false → unsubscribe ≡ false → P n)
    → P (if subscribe then (if over then x else a) else (if unsubscribe then d else n))
by_tests true true u P px pa pd pn = px
by_tests true false u P px pa pd pn = pa refl
by_tests false o true P px pa pd pn = pd refl refl
by_tests false o false P px pa pd pn = pn refl refl

module _ {F Byte : Type 0} (p : Parsing F) (settings : Settings F Byte) (channel : String) where
  -- The control of a message that the check accepts.
  abbrev pub control_of : Incoming → Option Control
  control_of disconnect = none
  control_of (message none) = none
  control_of (message (some frame)) = accepted (websocket_control p frame channel)

  abbrev pub controls : List (Stamp × Incoming) → List Control
  controls [] = []
  controls ((s, m) ∷ rest) = elim (control_of m) [
    | none ↦ controls rest
    | some c ↦ c ∷ controls rest
  ]

  abbrev Decides : Option Control → List String → Round F → Type 0
  Decides c ids (ends e out) = Unit
  Decides none ids (goes_on ids' out) = ⊥
  Decides (some c) ids (goes_on ids' out) =
      (id : String) → one_of id ids' ≡ decide c id (one_of id ids)

  changed :
      (c : Control) (i id : String) (ids : List String)
      → c.subscription_id ≡ some i
      → (str_eq c.operation "subscribe" ≡ true
          → one_of id (add_id c.subscription_id ids) ≡ decide c id (one_of id ids))
        × (str_eq c.operation "subscribe" ≡ false
            → str_eq c.operation "unsubscribe" ≡ true
            → one_of id (discard_id c.subscription_id ids) ≡ decide c id (one_of id ids))
        × (str_eq c.operation "subscribe" ≡ false
            → str_eq c.operation "unsubscribe" ≡ false
            → one_of id ids ≡ decide c id (one_of id ids))
  changed c i id ids h = rw h (
    λ s. ground (arith, one_of-add i id ids, s),
    λ s u. ground (arith, one_of-discard id i ids, eq_iff i id, eq_iff id i, s, u),
    λ s u. ground (arith, s, u),
  )

  unchanged :
      (c : Control) (id : String) (ids : List String)
      → c.subscription_id ≡ none
      → (one_of id (add_id c.subscription_id ids) ≡ decide c id (one_of id ids))
        × (one_of id (discard_id c.subscription_id ids) ≡ decide c id (one_of id ids))
        × (one_of id ids ≡ decide c id (one_of id ids))
  unfolding add_id
  unchanged c id ids h = rw h (refl, refl, refl)

  control_round_as :
      (s : Stamp) (c : Control) (ids : List String) (P : Round F → Type 0)
      → ((e : Ending) (out : List (Sent F)) → P (ends e out))
      → (str_eq c.operation "subscribe" ≡ true
          → P (goes_on (add_id c.subscription_id ids) (answers p settings channel s c)))
      → (str_eq c.operation "subscribe" ≡ false
          → str_eq c.operation "unsubscribe" ≡ true
          → P (goes_on (discard_id c.subscription_id ids) (answers p settings channel s c)))
      → (str_eq c.operation "subscribe" ≡ false
          → str_eq c.operation "unsubscribe" ≡ false
          → P (goes_on ids (answers p settings channel s c)))
      → P (control_round p settings channel s c ids)
  unfolding control_round
  control_round_as s c ids P h a d n =
      by_tests (str_eq c.operation "subscribe") (over_cap p settings channel c ids)
        (str_eq c.operation "unsubscribe") P (h returned (close 1008 ∷ [])) a d n

  control_round-Decides :
      (s : Stamp) (c : Control) (ids : List String)
      → Decides (some c) ids (control_round p settings channel s c ids)
  control_round-Decides s c ids = elim (Option-cases c.subscription_id) [
    | inl n ↦
        control_round_as s c ids (Decides (some c) ids) (λ e out. tt)
          (λ t id. (unchanged c id ids n).0) (λ t u id. (unchanged c id ids n).1)
          (λ t u id. (unchanged c id ids n).2)
    | inr (i, e) ↦
        control_round_as s c ids (Decides (some c) ids) (λ e out. tt)
          (λ t id. (changed c i id ids e).0 t) (λ t u id. (changed c i id ids e).1 t u)
          (λ t u id. (changed c i id ids e).2 t u)
  ]

  checked_round-Decides :
      (s : Stamp) (r : Result ControlError Control) (ids : List String)
      → Decides (accepted r) ids (checked_round p settings channel s r ids)
  unfolding checked_round
  checked_round-Decides s (ok c) ids = control_round-Decides s c ids
  checked_round-Decides s (err (value_error e)) ids = tt
  checked_round-Decides s (err type_error) ids = tt
  checked_round-Decides s (err recursion_error) ids = tt

  framed-Decides :
      (frame : String) (ids : List String) (big : Bool) (r : Round F)
      → Decides (control_of (message (some frame))) ids r
      → Decides
          (control_of (message (some frame)))
          ids
          (if big then ends returned (close 1009 ∷ []) else r)
  framed-Decides frame ids true r h = tt
  framed-Decides frame ids false r h = h

  round-Decides :
      (s : Stamp) (m : Incoming) (ids : List String)
      → Decides (control_of m) ids (round p settings channel s m ids)
  unfolding round
  round-Decides s disconnect ids = tt
  round-Decides s (message none) ids = tt
  round-Decides s (message (some frame)) ids =
      framed-Decides frame ids _ _ (checked_round-Decides s (websocket_control p frame channel) ids)

  step_after :
      (m : Incoming) (s : Stamp) (rest : List (Stamp × Incoming)) (ids ids' : List String)
      (out : List (Sent F)) (id : String)
      → Decides (control_of m) ids (goes_on ids' out)
      → after (controls ((s, m) ∷ rest)) id (one_of id ids)
        ≡ after (controls rest) id (one_of id ids')
  step_after m s rest ids ids' out id h = decided_after (control_of m) h
    where
      decided_after :
          (c : Option Control)
          → Decides c ids (goes_on ids' out)
          → after (elim c [ none ↦ controls rest | some c ↦ c ∷ controls rest ]) id (one_of id ids)
            ≡ after (controls rest) id (one_of id ids')
      decided_after none h = absurd h
      decided_after (some c) h = ap (after (controls rest) id) (sym (h id))

  -- While the loop waits, it holds a subscription exactly if the abstract set does after the controls
  -- that it has read.
  pub loop-after :
      (messages : List (Stamp × Incoming)) (ids : List String) (id : String)
      → is_none (loop p settings channel messages ids).ending ≡ true
      → one_of id (loop p settings channel messages ids).subscriptions
        ≡ after (controls messages) id (one_of id ids)
  unfolding loop
  loop-after [] ids id h = refl
  loop-after ((s, m) ∷ rest) ids id h = elim (Round-cases (round p settings channel s m ids)) [
    | inl (ids', out, e) ↦
        let on = loop_goes_on p settings channel s m rest ids e in
        let waits : is_none (loop p settings channel rest ids').ending ≡ true =
          subst (λ o. is_none o.ending ≡ true) on h in
        let decided = subst (Decides (control_of m) ids) e (round-Decides s m ids) in
        ap (λ o. one_of id o.subscriptions) on
        ∙ loop-after rest ids' id waits
        ∙ sym (step_after m s rest ids ids' out id decided)
    | inr (x, out, e) ↦
        cc (subst (λ o. is_none o.ending ≡ true) (loop_ends p settings channel s m rest ids e) h)
  ]
