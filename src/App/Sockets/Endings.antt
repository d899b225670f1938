-- ===== src/App/Sockets/Endings.antt =====
-- services/authentication/pentagon5_auth/app.py: how the WebSocket route ends, and what it has sent.
use pentagon5_foundation.Prelude.{
  String, ◌≡◌, refl, ◌≤◌, Bool, true, false, ◌&&◌, not, none, some, List, [], ◌∷◌, ◌++◌, is_none,
  length, length-append, arith, inl, inr, subst,
}
use pentagon5_foundation.Auth.Config.{Settings}
use pentagon5_foundation.App.Control.{Parsing, Control}
use pentagon5_foundation.App.Sockets.Rounds.{Round-cases, loop_goes_on, loop_ends}
use pentagon5_foundation.App.Sockets.{
  Incoming, disconnect, message, Stamp, Sent, close, Ending, Round, goes_on, ends, answers, ack,
  health, control_round, checked_round, round, loop,
}

abbrev pub is_close : {F : Type 0} → Sent F → Bool
is_close (close code) = true
is_close _ = false

-- Nothing is sent after the close.
abbrev pub ends_at_close : {F : Type 0} → List (Sent F) → Bool
ends_at_close [] = true
ends_at_close (x ∷ []) = true
ends_at_close (x ∷ y ∷ ys) = not (is_close x) && ends_at_close (y ∷ ys)

abbrev pub has_disconnect : List (Stamp × Incoming) → Bool
has_disconnect [] = false
has_disconnect ((s, disconnect) ∷ rest) = true
has_disconnect ((s, m) ∷ rest) = has_disconnect rest

abbrev no_close : {F : Type 0} → List (Sent F) → Bool
no_close [] = true
no_close (x ∷ xs) = not (is_close x) && no_close xs

ends_at_close-append :
    {F : Type 0} (xs ys : List (Sent F))
    → no_close xs ≡ true
    → ends_at_close ys ≡ true
    → ends_at_close (xs ++ ys) ≡ true
ends_at_close-append [] ys h k = k
ends_at_close-append (x ∷ []) [] h k = refl
ends_at_close-append (x ∷ []) (y ∷ ys) h k = ground arith
ends_at_close-append (x ∷ z ∷ xs) ys h k = ground (arith, ends_at_close-append (z ∷ xs) ys)

module _ {F Byte : Type 0} (p : Parsing F) (settings : Settings F Byte) (channel : String) where
  -- A round that goes on answers without a close, and one that ends sends at most a close.
  abbrev Answers : Round F → Type 0
  Answers (goes_on ids out) = (no_close out ≡ true) × (1 ≤ length out)
  Answers (ends e out) = ends_at_close out ≡ true

  control_round-Answers :
      (s : Stamp) (c : Control) (ids : List String)
      → Answers (control_round p settings channel s c ids)
  unfolding control_round answers ack health
  control_round-Answers s c ids = ground arith

  round-Answers :
      (s : Stamp) (m : Incoming) (ids : List String) → Answers (round p settings channel s m ids)
  unfolding round checked_round
  round-Answers s disconnect ids = refl
  round-Answers s (message none) ids = refl
  round-Answers s (message (some frame)) ids = grind (arith, control_round-Answers)

  -- Whatever a client sends, nothing is sent after a close.
  pub loop-ends_at_close :
      (messages : List (Stamp × Incoming)) (ids : List String)
      → ends_at_close (loop p settings channel messages ids).sent ≡ true
  unfolding loop
  loop-ends_at_close [] ids = refl
  loop-ends_at_close ((s, m) ∷ rest) ids = elim (Round-cases (round p settings channel s m ids)) [
    | inl (ids', out, e) ↦ rw (loop_goes_on p settings channel s m rest ids e) (
        ends_at_close-append out _ (subst Answers e (round-Answers s m ids)).0
          (loop-ends_at_close rest ids'))
    | inr (x, out, e) ↦
        rw (loop_ends p settings channel s m rest ids e) (subst Answers e (round-Answers s m ids))
  ]

  round-disconnect :
      (s : Stamp) (ids : List String)
      → round p settings channel s disconnect ids ≡ ends Ending.returned []
  unfolding round
  round-disconnect s ids = refl

  -- The loop does not outlast a disconnection, and while it waits it has answered each message.
  pub loop_progress :
      (messages : List (Stamp × Incoming)) (ids : List String)
      → is_none (loop p settings channel messages ids).ending ≡ true
      → (has_disconnect messages ≡ false)
        × (length messages ≤ length (loop p settings channel messages ids).sent)
  unfolding loop
  loop_progress [] ids h = (refl, omega arith)
  loop_progress ((s, m) ∷ rest) ids h = elim (Round-cases (round p settings channel s m ids)) [
    | inl (ids', out, e) ↦
        let on = loop_goes_on p settings channel s m rest ids e in
        let waits : is_none (loop p settings channel rest ids').ending ≡ true =
          subst (λ o. is_none o.ending ≡ true) on h in
        let (quiet, more) = loop_progress rest ids' waits in
        let (_, one) = subst Answers e (round-Answers s m ids) in
        (not_disconnect m e quiet, rw (on, length-append) (omega (arith, more, one)))
    | inr (x, out, e) ↦
        cc (subst (λ o. is_none o.ending ≡ true) (loop_ends p settings channel s m rest ids e) h)
  ]
    where
      not_disconnect :
          (m : Incoming) {ids' : List String} {out : List (Sent F)}
          → round p settings channel s m ids ≡ goes_on ids' out
          → has_disconnect rest ≡ false
          → has_disconnect ((s, m) ∷ rest) ≡ false
      not_disconnect disconnect e q = cc (round-disconnect s ids, e)
      not_disconnect (message t) e q = q
