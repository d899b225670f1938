-- ===== src/App/Control/Accepted.antt =====
-- services/authentication/pentagon5_auth/app.py: what an accepted control frame guarantees, and the
-- frames that raise something else than a `ValueError`.
use pentagon5_foundation.Prelude.{
  String, ◌≡◌, Bool, true, ◌&&◌, not, none, some, [], ◌∷◌, ok, err, one_of, arith,
}
use pentagon5_foundation.Prelude.Json.{
  Json, Items, Members, array, object, get, keys_within, keys_equal,
}
use pentagon5_foundation.App.Control.{
  Parsing, type_error, Control, operations, envelope_keys, head_valid, metadata_valid,
  payload_control, envelope_control, message_control, websocket_control,
}

-- The operation is known, the identifiers are UUIDs of version 7, and an operation on a subscription
-- names one.
abbrev pub is_acceptable : (String → Bool) → Control → Bool
is_acceptable valid c =
    one_of c.operation operations && valid c.correlation_id && (elim c.subscription_id [
      | none ↦ not (one_of c.operation ("subscribe" ∷ "unsubscribe" ∷ []))
      | some id ↦ valid id
    ])

module _ {F : Type 0} (p : Parsing F) (channel : String) where
  -- A frame that is valid but for an operation that is a list or an object raises a `TypeError`, on
  -- which the caller does not count.
  pub unhashable_operation :
      (frame : String) (message metadata payload : Members F) (a : Items F)
      → p.loads frame ≡ ok (object message)
      → keys_equal envelope_keys message ≡ true
      → get "metadata" message ≡ some (object metadata)
      → get "payload" message ≡ some (object payload)
      → (head_valid p message
          && metadata_valid p metadata
          && keys_within ("operation" ∷ "channel" ∷ "subscriptionId" ∷ []) payload)
        ≡ true
      → get "operation" payload ≡ some (array a)
      → websocket_control p frame channel ≡ err type_error
  unfolding websocket_control message_control envelope_control payload_control
  unhashable_operation frame message metadata payload a l k m n v o =
      ground (arith, l, k, m, n, v, o)
