-- ===== src/App/Control/RoundTrip.antt =====
-- services/authentication/pentagon5_auth/app.py and backend/pentagon5_runtime/envelopes.py: a frame
-- that the envelope builder makes is what the check of control frames accepts.
use Prim.Native.String
use Prim.Native.String.append
use Prim.Native.Char.{Char}
use pentagon5_foundation.Prelude.{
  String, ◌≡◌, refl, Bool, true, ◌&&◌, not, Option, none, some, [], ◌∷◌, ok, str_eq, one_of, arith,
  eq_refl,
}
use pentagon5_foundation.Prelude.Int.{pos}
use pentagon5_foundation.Prelude.Json.{
  Members, member, end, text, object, get, has, keys_within, has_all, keys_equal,
}
use pentagon5_foundation.Runtime.Envelopes.{utc_z, base, websocket_envelope, if_given}
use pentagon5_foundation.Runtime.Uuid7.Text.{is_uuid7}
use pentagon5_foundation.App.Control.{
  Parsing, Control, without_z, operations, is_utc_z, str, str_or_empty, optional_uuid7, head_valid,
  metadata_valid, payload_control, envelope_control, message_control, websocket_control,
}

without_z_step :
    (c d : Char) (s : String) {r : String}
    → without_z (String.◌∷◌ d s) ≡ some r
    → without_z (String.◌∷◌ c (String.◌∷◌ d s)) ≡ some (String.◌∷◌ c r)
unfolding without_z
without_z_step c d s h = ground (arith, h)

without_z-append : (s : String) → without_z (String.◌++◌ s "Z") ≡ some s
unfolding without_z
without_z-append String.[] = refl
without_z-append (String.◌∷◌ c String.[]) = rw (append.cons c String.[] "Z") refl
without_z-append (String.◌∷◌ c (String.◌∷◌ d s)) =
    rw (append.cons c (String.◌∷◌ d s) "Z", append.cons d s "Z")
      (without_z_step c d (String.◌++◌ s "Z")
        (rw (← append.cons d s "Z") (without_z-append (String.◌∷◌ d s))))

-- An identifier that a frame may carry for an operation.
abbrev pub id_fits : (String → Bool) → String → Option String → Bool
id_fits valid operation none = not (one_of operation ("subscribe" ∷ "unsubscribe" ∷ []))
id_fits valid operation (some id) = valid id && not (str_eq id "")

module _ {F : Type 0} (p : Parsing F)
    (message_id base_text correlation_id operation channel : String)
    (subscription_id : Option String) where
  abbrev frame : Members F
  frame = websocket_envelope message_id base_text correlation_id operation channel subscription_id

  abbrev control : Control
  control = record {
    operation = operation;
    correlation_id = correlation_id;
    subscription_id = subscription_id;
  }

  head_accepted :
      is_uuid7 p.uuids message_id ≡ true
      → p.utc_offset (String.◌++◌ base_text "+00:00") ≡ some (pos 0)
      → head_valid p frame ≡ true
  unfolding head_valid websocket_envelope base get utc_z is_utc_z str_or_empty str
  head_accepted h k = ground (arith, without_z-append base_text)

  metadata_accepted :
      is_uuid7 p.uuids correlation_id ≡ true
      → metadata_valid p (member "correlationId" (text correlation_id) end) ≡ true
  unfolding metadata_valid optional_uuid7 get keys_within str_or_empty str one_of
  metadata_accepted h = ground (arith, h)

  abbrev payload : Members F
  payload =
      member "operation" (text operation)
        (member "channel" (text channel) (if_given "subscriptionId" subscription_id))

  payload_accepted :
      one_of operation operations ≡ true
      → id_fits (is_uuid7 p.uuids) operation subscription_id ≡ true
      → payload_control p channel (member "correlationId" (text correlation_id) end) payload
        ≡ ok control
  unfolding payload_control optional_uuid7 get str_or_empty str
  payload_accepted h k = ground (arith, eq_refl channel)

  payload_keys : keys_within ("operation" ∷ "channel" ∷ "subscriptionId" ∷ []) payload ≡ true
  unfolding keys_within one_of
  payload_keys = ground arith

  -- Given that `fromisoformat` reads the text of the clock, a frame made by the envelope builder for a
  -- known operation, with valid identifiers, is accepted on its channel and read as it was made.
  pub websocket_control-envelope :
      (frame_text : String)
      → p.loads frame_text ≡ ok (object frame)
      → p.utc_offset (String.◌++◌ base_text "+00:00") ≡ some (pos 0)
      → is_uuid7 p.uuids message_id ≡ true
      → is_uuid7 p.uuids correlation_id ≡ true
      → one_of operation operations ≡ true
      → id_fits (is_uuid7 p.uuids) operation subscription_id ≡ true
      → websocket_control p frame_text channel ≡ ok control
  unfolding websocket_control message_control envelope_control keys_equal keys_within has_all has
      get one_of websocket_envelope base
  websocket_control-envelope frame_text loaded clock message correlation known fits = ground (
    arith,
    loaded,
    head_accepted message clock,
    metadata_accepted correlation,
    payload_accepted known fits,
    payload_keys,
  )
