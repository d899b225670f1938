-- ===== src/App/Control.antt =====
-- services/authentication/pentagon5_auth/app.py: `_websocket_control`, the check of a control frame.
pub mod RoundTrip
pub mod Accepted
use Prim.Native.String
use Prim.Native.Char.{code}
use pentagon5_foundation.Prelude.{
  ℕ, String, Bool, true, false, ◌&&◌, ◌||◌, not, Option, none, some, List, [], ◌∷◌, Result, ok, err,
  and_then, check, str_eq, one_of, ◌==◌, if◌then◌else◌,
}
use pentagon5_foundation.Prelude.Int.{ℤ, pos}
use pentagon5_foundation.Prelude.Json.{
  Json, Items, Members, null, bool, number, text, array, object, get, keys_within, keys_equal,
  equals_text, is_null,
}
use pentagon5_foundation.Runtime.Uuid7.Text.{Uuids, is_uuid7}

-- What `json.loads` raises: a `JSONDecodeError`, another `ValueError` (of a number with too many
-- digits), or a `RecursionError` (of a text that is nested too deeply).
pub data LoadError : Type 0 where
  malformed too_many_digits too_deep : LoadError

-- `json.loads`, `str` of a value that is not a text, and the UTC offset of `datetime.fromisoformat`
-- (none where it raises) in microseconds.
pub record Parsing (F : Type 0) : Type 0 where
  pub loads : String → Result LoadError (Json F)
  pub show : Json F → String
  pub utc_offset : String → Option ℤ
  pub uuids : Uuids

-- An exception of the check; only a `ValueError` is caught by the caller.
pub data ControlError : Type 0 where
  value_error : String → ControlError
  type_error recursion_error : ControlError

pub record Control : Type 0 where
  pub operation : String
  pub correlation_id : String
  pub subscription_id : Option String

-- `value.removesuffix("Z")`, or none where the text does not end with it.
unfoldable pub without_z : String → Option String
without_z String.[] = none
without_z (String.◌∷◌ c s) =
    let rest = without_z s in
    elim s [
      | String.[] ↦ if code c == 90 then some String.[] else none
      | String.◌∷◌ d t ↦ elim rest [ none ↦ none | some r ↦ some (String.◌∷◌ c r) ]
    ]

abbrev pub is_zero : Option ℤ → Bool
is_zero (some (pos n)) = n == 0
is_zero _ = false

abbrev pub envelope_keys : List String
envelope_keys =
    "schemaVersion" ∷ "messageId" ∷ "category" ∷ "occurredAt" ∷ "metadata" ∷ "payload" ∷ []

abbrev pub operations : List String
operations = "subscribe" ∷ "unsubscribe" ∷ "heartbeat" ∷ []

module _ {F : Type 0} (p : Parsing F) where
  unfoldable pub is_utc_z : Option (Json F) → Bool
  is_utc_z (some (text value)) = elim (without_z value) [
    | none ↦ false
    | some base ↦ is_zero (p.utc_offset (String.◌++◌ base "+00:00"))
  ]
  is_utc_z _ = false

  -- `str(value)`
  unfoldable pub str : Json F → String
  str (text s) = s
  str v = p.show v

  -- `str(d.get(key, ""))`
  unfoldable pub str_or_empty : Option (Json F) → String
  str_or_empty none = ""
  str_or_empty (some v) = str v

  unfoldable pub optional_uuid7 : Option (Json F) → Bool
  optional_uuid7 v = is_null v || is_uuid7 p.uuids (str_or_empty v)

  -- The conditions on the members of the envelope but for its two objects.
  unfoldable pub head_valid : Members F → Bool
  head_valid message =
      equals_text (get "schemaVersion" message) "1.0.0"
      && equals_text (get "category" message) "websocket"
      && is_uuid7 p.uuids (str_or_empty (get "messageId" message))
      && is_utc_z (get "occurredAt" message)

  unfoldable pub metadata_valid : Members F → Bool
  metadata_valid metadata =
      keys_within ("correlationId" ∷ "causationId" ∷ []) metadata
      && is_uuid7 p.uuids (str_or_empty (get "correlationId" metadata))
      && optional_uuid7 (get "causationId" metadata)

  abbrev pub known_operation : Option (Json F) → Result ControlError String
  known_operation (some (text s)) =
      if one_of s operations then ok s else err (value_error "unsupported WebSocket operation")
  -- a list or a dict is not hashable
  known_operation (some (array a)) = err type_error
  known_operation (some (object d)) = err type_error
  known_operation _ = err (value_error "unsupported WebSocket operation")

  abbrev pub id_of : Option (Json F) → Option String
  id_of none = none
  id_of (some null) = none
  id_of (some v) = some (str v)

  abbrev pub needs_id : String → Option (Json F) → Bool
  needs_id operation id = one_of operation ("subscribe" ∷ "unsubscribe" ∷ []) && is_null id

  -- The part on the payload, once the envelope is valid.
  unfoldable pub payload_control : String → Members F → Members F → Result ControlError Control
  payload_control expected_channel metadata payload =
      and_then (known_operation (get "operation" payload)) λ operation.
        and_then
          (check (not (equals_text (get "channel" payload) expected_channel))
            (value_error "WebSocket channel does not match ticket"))
          λ _.
            and_then
              (check (not (optional_uuid7 (get "subscriptionId" payload)))
                (value_error "invalid subscription ID"))
              λ _.
                and_then
                  (check (needs_id operation (get "subscriptionId" payload))
                    (value_error "subscription ID is required"))
                  λ _. ok (record {
                    operation = operation;
                    correlation_id = str_or_empty (get "correlationId" metadata);
                    subscription_id = id_of (get "subscriptionId" payload);
                  })

  abbrev invalid_envelope : Result ControlError Control
  invalid_envelope = err (value_error "invalid WebSocket envelope")

  unfoldable pub envelope_control :
      String → Members F → Option (Json F) → Option (Json F) → Result ControlError Control
  envelope_control expected_channel message (some (object metadata)) (some (object payload)) =
      if head_valid message
        && metadata_valid metadata
        && keys_within ("operation" ∷ "channel" ∷ "subscriptionId" ∷ []) payload
      then payload_control expected_channel metadata payload
      else err (value_error "invalid WebSocket envelope")
  envelope_control expected_channel message _ _ = err (value_error "invalid WebSocket envelope")

  unfoldable pub message_control : String → Json F → Result ControlError Control
  message_control expected_channel (object message) =
      if keys_equal envelope_keys message
      then envelope_control expected_channel message (get "metadata" message)
          (get "payload" message)
      else err (value_error "invalid WebSocket envelope")
  message_control expected_channel _ = err (value_error "invalid WebSocket envelope")

  unfoldable pub websocket_control : String → String → Result ControlError Control
  websocket_control frame expected_channel = elim (p.loads frame) [
    | err malformed ↦ err (value_error "malformed JSON")
    | err too_many_digits ↦ err (value_error "too many digits")
    | err too_deep ↦ err recursion_error
    | ok message ↦ message_control expected_channel message
  ]
