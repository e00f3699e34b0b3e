-- ===== src/Receiver/Envelope.antt =====
-- relay_receiver.py: the messages of a session after its authentication.
use printer_hmi_remote.Prelude.{
  String, Bool, not, ◌&&◌, List, [], ◌∷◌, receiver, Result, ok, raise_if, ◌>>=◌, ◌>>◌, ◌≡◌, arith,
}
use printer_hmi_remote.Prelude.Int.{pos}
use printer_hmi_remote.Json.{
  Value, int, str, obj, Fields, end, field, get, same_keys, is_one, is_text, py_eq,
}
use printer_hmi_remote.Platform.{Platform}
use printer_hmi_remote.Transport.Sanitize.{sanitize_snapshot}
use printer_hmi_remote.Transport.Sanitize.Privacy.{IsSanitized, sanitize_snapshot-IsSanitized}

abbrev pub telemetry_fields : List String
telemetry_fields = "protocol_version" ∷ "type" ∷ "session_id" ∷ "sequence" ∷ "snapshot" ∷ []

unfoldable pub session_ready : Value → String → String → Fields
session_ready session_id relay_id accepted_at = field "protocol_version" (int (pos 1)) (
    field "type" (str "relay.session-ready") (
      field "session_id" session_id (
        field "challenge_id" session_id
          (field "relay_id" (str relay_id) (field "accepted_at" (str accepted_at) end)))))

unfoldable pub telemetry_ack : Value → Fields
telemetry_ack session_id = field "protocol_version" (int (pos 1)) (
    field "type" (str "relay.telemetry-ack")
      (field "session_id" session_id (field "sequence" (int (pos 1)) end)))

unfoldable pub is_envelope : Fields → Value → Bool
is_envelope envelope session_id =
    same_keys envelope telemetry_fields
    && is_one (get "protocol_version" envelope)
    && is_text "agent.telemetry" (get "type" envelope)
    && py_eq (get "session_id" envelope) session_id
    && is_one (get "sequence" envelope)

-- The checks of an envelope: only a snapshot that the filter would not change is let through.
unfoldable pub let_through : Platform → Fields → Value → Result Fields
let_through p envelope session_id = do
  raise_if (not (is_envelope envelope session_id)) (receiver "invalid telemetry envelope")
  snapshot ← sanitize_snapshot p (get "snapshot" envelope)
  raise_if (not (py_eq (obj snapshot) (get "snapshot" envelope)))
      (receiver "telemetry was not privacy filtered")
  ok snapshot

module _ (p : Platform) where
  let_through-sanitizes :
      (envelope : Fields) (session_id : Value) (content : Fields)
      → let_through p envelope session_id ≡ ok content
      → sanitize_snapshot p (get "snapshot" envelope) ≡ ok content
  unfolding let_through
  let_through-sanitizes envelope session_id content h = ground arith

  -- What is let through is what the filter makes of the snapshot that was sent.
  pub let_through-IsSanitized :
      (envelope : Fields) (session_id : Value) (content : Fields)
      → let_through p envelope session_id ≡ ok content
      → IsSanitized p (get "snapshot" envelope) content
  let_through-IsSanitized envelope session_id content h =
      sanitize_snapshot-IsSanitized p (get "snapshot" envelope) content
        (let_through-sanitizes envelope session_id content h)
