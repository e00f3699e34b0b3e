-- ===== src/Transport/Connector.antt =====
-- relay_transport.py: `sign_session_challenge` and `RelayConnector.send_snapshot`, the agent's side of a
-- session.
use printer_hmi_remote.Prelude.{
  String, Bool, not, ◌&&◌, List, [], ◌∷◌, str_eq, if◌then◌else◌, Error, transport, other, Result,
  ok, err, need,
}
use printer_hmi_remote.Prelude.Int.{pos}
use printer_hmi_remote.Action.{Action, pure, lift, focus, check, ◌>>=◌, ◌>>◌}
use printer_hmi_remote.Json.{
  Value, int, str, obj, Fields, end, field, lookup, get, same_keys, is_one, is_text, py_eq,
}
use printer_hmi_remote.Codec.Base64
use printer_hmi_remote.Platform.{Platform}
use printer_hmi_remote.Enrollment.Types.{Disk, Draw}
use printer_hmi_remote.Enrollment.Signed.{signed_payload, append_field}
use printer_hmi_remote.Enrollment.Operations.{identity, sign}
use printer_hmi_remote.Transport.Config.{RelayConfig}
use printer_hmi_remote.Transport.Link.{Link, os_error, receive, transmit}
use printer_hmi_remote.Transport.Sanitize.{sanitize_snapshot}
use printer_hmi_remote.Transport.Session.{
  session_signature_domain, create_agent_hello, validate_session_challenge, session_auth,
}

-- The enrollment directory and the connection.
pub record Agent : Type 0 where
  pub disk : Disk
  pub link : Link

abbrev on_disk : {A : Type 0} → Action Disk A → Action Agent A
on_disk = focus (λ (s : Agent). s.disk) (λ d s. record s { disk = d })

abbrev on_link : {A : Type 0} → Action Link A → Action Agent A
on_link = focus (λ (s : Agent). s.link) (λ l s. record s { link = l })

abbrev pub ready_fields : List String
ready_fields =
    "protocol_version" ∷ "type" ∷ "session_id" ∷ "challenge_id" ∷ "relay_id" ∷ "accepted_at" ∷ []

abbrev pub ack_fields : List String
ack_fields = "protocol_version" ∷ "type" ∷ "session_id" ∷ "sequence" ∷ []

unfoldable pub is_ready : Fields → Value → String → Bool
is_ready ready session_id relay_id =
    same_keys ready ready_fields
    && is_one (get "protocol_version" ready)
    && is_text "relay.session-ready" (get "type" ready)
    && py_eq (get "session_id" ready) session_id
    && py_eq (get "challenge_id" ready) session_id
    && is_text relay_id (get "relay_id" ready)

unfoldable pub is_ack : Fields → Value → Bool
is_ack acknowledgement session_id =
    same_keys acknowledgement ack_fields
    && is_one (get "protocol_version" acknowledgement)
    && is_text "relay.telemetry-ack" (get "type" acknowledgement)
    && py_eq (get "session_id" acknowledgement) session_id
    && is_one (get "sequence" acknowledgement)

unfoldable pub telemetry_envelope : Value → Fields → Fields
telemetry_envelope session_id snapshot = field "protocol_version" (int (pos 1)) (
    field "type" (str "agent.telemetry") (
      field "session_id" session_id
        (field "sequence" (int (pos 1)) (field "snapshot" (obj snapshot) end))))

unfoldable pub delivery : Value → String → Fields
delivery session_id relay_id =
    field "session_id" session_id
      (field "relay_id" (str relay_id) (field "sequence" (int (pos 1)) end))

-- `except (OSError, ...)`: the failures of the connection become the transport's own error.
abbrev pub as_transport : Error → Error
as_transport (other name) =
    if str_eq name "OSError" then transport "secure relay connection failed" else other name
as_transport e = e

abbrev translate : {A : Type 0} → Result A → Result A
translate (ok a) = ok a
translate (err e) = err (as_transport e)

module _ (p : Platform) (draw : Draw) where
  -- The identity is there when `sign` is called, so that the second use of the draw takes nothing.
  unfoldable pub sign_session_challenge : Value → Value → Action Disk Fields
  sign_session_challenge challenge relay_id = do
    shown ← identity p draw
    normalized ← lift (validate_session_challenge p challenge shown.device_id relay_id draw.now)
    let response = session_auth p shown normalized draw.now
    signature ← sign p draw (signed_payload p session_signature_domain response)
    pure (append_field response "signature" (str (Base64.encode signature)))

  -- Up to the confirmation of the session; returns the session's identifier.
  unfoldable pub connect_session : RelayConfig → Action Agent Value
  connect_session config = do
    shown ← on_disk (identity p draw)
    on_link (transmit p (create_agent_hello shown))
    challenge ← on_link (receive p)
    authentication ← on_disk (sign_session_challenge (obj challenge) (str config.relay_id))
    on_link (transmit p authentication)
    ready ← on_link (receive p)
    session_id ← lift (need (lookup "session_id" challenge) (other "KeyError"))
    check (not (is_ready ready session_id config.relay_id))
        (transport "invalid relay session confirmation")
    pure session_id

  unfoldable pub deliver : RelayConfig → Value → Value → Action Agent Fields
  deliver config snapshot session_id = do
    content ← lift (sanitize_snapshot p snapshot)
    on_link (transmit p (telemetry_envelope session_id content))
    acknowledgement ← on_link (receive p)
    check (not (is_ack acknowledgement session_id))
        (transport "invalid relay telemetry acknowledgement")
    pure (delivery session_id config.relay_id)

  -- `opens` says whether `open_connection` succeeds, within its timeout.
  abbrev attempt : RelayConfig → Bool → Value → Action Agent Fields
  attempt config opens snapshot = do
    check (not opens) os_error
    session_id ← connect_session config
    deliver config snapshot session_id

  unfoldable pub send_snapshot : RelayConfig → Bool → Value → Action Agent Fields
  send_snapshot config opens snapshot s =
      let (r, s') = attempt config opens snapshot s in (translate r, s')
