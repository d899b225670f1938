-- ===== src/Runtime/Envelopes.antt =====
-- backend/pentagon5_runtime/envelopes.py: the builders of messages. `str(uuid7())` and the clock's
-- text are arguments; `base_of now` is `now.astimezone(UTC).isoformat()` without its "+00:00".
use Prim.Native.String
use pentagon5_foundation.Prelude.{String, Bool, Option, none, some, str_eq, if◌then◌else◌}
use pentagon5_foundation.Prelude.Json.{Members, bool, text, object, end, member}

-- `isoformat().replace("+00:00", "Z")`
unfoldable pub utc_z : String → String
utc_z base_text = String.◌++◌ base_text "Z"

module _ {F : Type 0} where
  -- `_base`
  unfoldable pub base : String → String → String → Members F → String → Members F
  base category message_id correlation_id payload occurred_at =
      member "schemaVersion" (text "1.0.0") (
        member "messageId" (text message_id) (
          member "category" (text category) (
            member "occurredAt" (text occurred_at) (
              member "metadata" (object (member "correlationId" (text correlation_id) end))
                (member "payload" (object payload) end)))))

  -- `if value: payload[key] = value`
  abbrev pub if_given : String → Option String → Members F
  if_given key none = end
  if_given key (some value) = if str_eq value "" then end else member key (text value) end

  unfoldable pub error_envelope :
      String → String → String → String → String → Bool → Option String → Members F
  error_envelope message_id base_text correlation_id code message retryable field =
      base "error" message_id correlation_id
        (member "code" (text code) (
          member "message" (text message)
            (member "retryable" (bool retryable) (if_given "field" field))))
        (utc_z base_text)

  unfoldable pub health_envelope :
      String → String → String → String → String → String → Option String → Members F
  health_envelope message_id health_id base_text correlation_id component status detail =
      base "health" message_id correlation_id
        (member "schemaVersion" (text "1.0.0") (
          member "id" (text health_id) (
            member "component" (text component) (
              member "status" (text status)
                (member "observedAt" (text (utc_z base_text)) (if_given "detail" detail))))))
        (utc_z base_text)

  unfoldable pub websocket_envelope :
      String → String → String → String → String → Option String → Members F
  websocket_envelope message_id base_text correlation_id operation channel subscription_id =
      base "websocket" message_id correlation_id
        (member "operation" (text operation)
          (member "channel" (text channel) (if_given "subscriptionId" subscription_id)))
        (utc_z base_text)
