-- ===== src/App/Sockets.antt =====
-- services/authentication/pentagon5_auth/app.py: the WebSocket route. What the client sends is a list
-- of messages, each with the identifiers and the clock that its answers draw.
pub mod Rounds
pub mod Bounds
pub mod Endings
pub mod Refinement
pub mod Tickets
use Prim.Native.String
use pentagon5_foundation.Prelude.{
  ℕ, String, Bool, true, false, ◌&&◌, ◌||◌, not, Option, none, some, List, [], ◌∷◌, ◌++◌, Result,
  ok, err, ltb, leb, str_eq, one_of, if◌then◌else◌, length,
}
use pentagon5_foundation.Prelude.Json.{Members}
use pentagon5_foundation.Runtime.Envelopes.{health_envelope, websocket_envelope}
use pentagon5_foundation.Auth.Models.{Error, authentication_error}
use pentagon5_foundation.Auth.Config.{Settings}
use pentagon5_foundation.Auth.Tables.{Db}
use pentagon5_foundation.Auth.Service as Service
use pentagon5_foundation.Auth.Service.Externals.{Outside, Oidc}
use pentagon5_foundation.App.Control.{
  Parsing, ControlError, value_error, type_error, recursion_error, Control, websocket_control,
}

-- `incoming` of `websocket.receive()`: a disconnection, or a message with `text` or without.
pub data Incoming : Type 0 where
  disconnect : Incoming
  message : Option String → Incoming

-- `str(uuid7())` and the clock's text, for the answer and for a health message after it.
pub record Stamp : Type 0 where
  pub message_id : String
  pub now : String
  pub health_message_id : String
  pub health_id : String
  pub health_now : String

pub data Sent (F : Type 0) : Type 0 where
  accept : Sent F
  close : ℕ → Sent F
  json : Members F → Sent F

-- How the route ends: it returns, or an exception leaves it.
pub data Ending : Type 0 where
  returned crashed : Ending

-- One round of the loop: it goes on with the subscriptions, or it ends.
pub data Round (F : Type 0) : Type 0 where
  goes_on : List String → List (Sent F) → Round F
  ends : Ending → List (Sent F) → Round F

pub record Outcome (F : Type 0) : Type 0 where
  pub subscriptions : List String
  pub sent : List (Sent F)
  pub ending : Option Ending

-- `subscriptions.add(id)`
unfoldable pub add_id : Option String → List String → List String
add_id none ids = ids
add_id (some id) ids = if one_of id ids then ids else id ∷ ids

-- `subscriptions.discard(id)`
unfoldable pub discard : String → List String → List String
discard id [] = []
discard id (x ∷ xs) = let rest = discard id xs in if str_eq x id then rest else x ∷ rest

abbrev pub discard_id : Option String → List String → List String
discard_id none ids = ids
discard_id (some id) ids = discard id ids

abbrev pub has_id : Option String → List String → Bool
has_id none ids = false
has_id (some id) ids = one_of id ids

module _ {F Byte : Type 0} (p : Parsing F) (settings : Settings F Byte) (channel : String) where
  unfoldable pub ack : Stamp → Control → Sent F
  ack s c = json (
      websocket_envelope s.message_id s.now c.correlation_id
        (if str_eq c.operation "heartbeat" then "heartbeat" else "ack") channel c.subscription_id)

  unfoldable pub health : Stamp → Control → Sent F
  health s c = json (
      health_envelope s.health_message_id s.health_id s.health_now c.correlation_id
        settings.runtime.service_name "healthy" none)

  unfoldable pub answers : Stamp → Control → List (Sent F)
  answers s c =
      ack s c
      ∷ (if str_eq c.operation "subscribe" && str_eq channel "system.health"
          then health s c ∷ []
          else [])

  -- Whether a subscription is one too many.
  unfoldable pub over_cap : Control → List String → Bool
  over_cap c ids =
      not (has_id c.subscription_id ids) && leb settings.ws_max_subscriptions (length ids)

  unfoldable pub control_round : Stamp → Control → List String → Round F
  control_round s c ids =
      if str_eq c.operation "subscribe"
      then if over_cap c ids
        then ends returned (close 1008 ∷ [])
        else goes_on (add_id c.subscription_id ids) (answers s c)
      else if str_eq c.operation "unsubscribe"
      then goes_on (discard_id c.subscription_id ids) (answers s c)
      else goes_on ids (answers s c)

  -- A frame whose check raises a `ValueError` closes the socket; another exception is not caught.
  unfoldable pub checked_round : Stamp → Result ControlError Control → List String → Round F
  checked_round s (ok c) ids = control_round s c ids
  checked_round s (err (value_error e)) ids = ends returned (close 1008 ∷ [])
  checked_round s (err type_error) ids = ends crashed []
  checked_round s (err recursion_error) ids = ends crashed []

  -- `String.len` counts the bytes in UTF-8.
  unfoldable pub round : Stamp → Incoming → List String → Round F
  round s disconnect ids = ends returned []
  round s (message none) ids = ends returned (close 1003 ∷ [])
  round s (message (some frame)) ids =
      if ltb settings.ws_max_frame_bytes (String.len frame)
      then ends returned (close 1009 ∷ [])
      else checked_round s (websocket_control p frame channel) ids

  -- The loop; without an ending it waits for a message.
  unfoldable pub loop : List (Stamp × Incoming) → List String → Outcome F
  loop [] ids = record { subscriptions = ids; sent = []; ending = none }
  loop ((s, m) ∷ rest) ids = elim (round s m ids) [
    | goes_on ids' out ↦ let o = loop rest ids' in record o { sent = out ++ o.sent }
    | ends e out ↦ record { subscriptions = ids; sent = out; ending = some e }
  ]

  -- The route, once the ticket has been consumed or refused.
  unfoldable pub admitted : Result Error ℕ → List (Stamp × Incoming) → Outcome F
  admitted (ok session_id) messages =
      let o = loop messages [] in record o { sent = accept ∷ o.sent }
  admitted (err (authentication_error e)) messages = record {
    subscriptions = [];
    sent = close 1008 ∷ [];
    ending = some returned;
  }
  admitted (err _) messages = record { subscriptions = []; sent = []; ending = some crashed }

  unfoldable pub websocket :
      Outside Byte
      → Oidc
      → (List String → List String)
      → String
      → ℕ
      → List (Stamp × Incoming)
      → Db
      → Outcome F × Db
  websocket o oidc order_by_name ticket now messages db =
      let (session_id, db') =
        Service.consume_ws_ticket o oidc settings order_by_name ticket channel now db in
      (admitted session_id messages, db')
