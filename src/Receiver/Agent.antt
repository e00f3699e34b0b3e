-- ===== src/Receiver/Agent.antt =====
-- relay_receiver.py: `_handle_agent`, one session with an agent.
pub mod Answer
pub mod Frames
use printer_hmi_remote.Prelude.{
  ℕ, suc, ◌+◌, String, Bool, true, false, not, ◌||◌, ◌&&◌, Option, none, some, List, [], ◌∷◌,
  if◌then◌else◌, Error, receiver, Result, ok, err, need, ltb,
}
use printer_hmi_remote.Prelude.Int.{pos}
use printer_hmi_remote.Action.{Action, pure, lift, gets, modify, focus, check, ◌>>=◌, ◌>>◌}
use printer_hmi_remote.Json.{
  Value, int, str, obj, Fields, end, field, get, same_keys, is_one, is_text, py_eq,
}
use printer_hmi_remote.Dict
use printer_hmi_remote.Dict.{Dict}
use printer_hmi_remote.Codec.Base64.{Bytes}
use printer_hmi_remote.Codec.Time.{timestamp}
use printer_hmi_remote.Platform.{Platform}
use printer_hmi_remote.Registry
use printer_hmi_remote.Registry.{Registry, publish}
use printer_hmi_remote.Transport.Link.{Link, receive, transmit}
use printer_hmi_remote.Transport.Sanitize.{sanitize_snapshot}
use printer_hmi_remote.Receiver.Envelope.{session_ready, telemetry_ack, let_through}
use printer_hmi_remote.Transport.Session.{
  default_session_lifetime, validate_agent_hello, create_session_challenge, verify_session_auth,
}

-- What a session reads of the clock, in the order in which it does, and what else it draws.
pub record Moment : Type 0 where
  pub challenged_at : ℕ
  pub verified_at : ℕ
  pub accepted_at : ℕ
  pub published_at : ℕ
  pub session_id : String
  pub nonce : Bytes
  pub disk_fails : Bool

-- The receiver during a session: `device_id` and `session_open` are the locals of `_handle_agent`.
pub record Receiver : Type 0 where
  pub registry : Registry
  pub errors : ℕ
  pub link : Link
  pub device_id : Option String
  pub session_open : Bool

abbrev pub on_link : {A : Type 0} → Action Link A → Action Receiver A
on_link = focus (λ (s : Receiver). s.link) (λ l s. record s { link = l })

abbrev on_registry : {A : Type 0} → Action Registry A → Action Receiver A
on_registry = focus (λ (s : Receiver). s.registry) (λ r s. record s { registry = r })

module _ (p : Platform) (devices : Dict String) (relay_id : String) (m : Moment) where
  -- From the hello to the challenge that is sent: the device, its enrolled key, the challenge.
  unfoldable pub greet : Action Receiver (String × String × Fields)
  greet = do
    hello ← on_link (receive p)
    device_id ← lift (validate_agent_hello (obj hello) none)
    modify λ (s : Receiver). record s { device_id = some device_id }
    enrolled_key ← lift (need (Dict.lookup device_id devices) (receiver "agent is not enrolled"))
    challenge ← lift (
        create_session_challenge p device_id relay_id default_session_lifetime m.challenged_at
          m.session_id m.nonce)
    on_link (transmit p challenge)
    pure (device_id, enrolled_key, challenge)

  -- The authentication that answers it.
  unfoldable pub receive_auth : String → Fields → Action Receiver Fields
  receive_auth enrolled_key challenge = do
    authentication ← on_link (receive p)
    check (not (is_text enrolled_key (get "device_public_key" authentication)))
        (receiver "agent key is not enrolled")
    lift (verify_session_auth p (obj authentication) (obj challenge) m.verified_at)
    pure authentication

  unfoldable pub authenticate : Action Receiver (String × Fields)
  authenticate = do
    (device_id, enrolled_key, challenge) ← greet
    receive_auth enrolled_key challenge
    pure (device_id, challenge)

  unfoldable pub open_session : String → Action Receiver Unit
  open_session device_id = do
    modify λ (s : Receiver). record s { registry = Registry.session_opened device_id s.registry }
    modify λ (s : Receiver). record s { session_open = true }

  -- From the confirmation to the snapshot that is let through.
  unfoldable pub receive_snapshot : Fields → Action Receiver Fields
  receive_snapshot challenge = do
    let session_id = get "session_id" challenge
    on_link (transmit p (session_ready session_id relay_id (timestamp p m.accepted_at)))
    envelope ← on_link (receive p)
    lift (let_through p envelope session_id)

  -- Its publication, and the acknowledgement.
  unfoldable pub accept_snapshot : String → Fields → Fields → Action Receiver Unit
  accept_snapshot device_id challenge snapshot = do
    on_registry (publish p device_id 1 snapshot m.published_at m.disk_fails)
    on_link (transmit p (telemetry_ack (get "session_id" challenge)))

  unfoldable pub take_telemetry : String → Fields → Action Receiver Unit
  take_telemetry device_id challenge = do
    snapshot ← receive_snapshot challenge
    accept_snapshot device_id challenge snapshot

  unfoldable pub converse : Action Receiver Unit
  unfolding open_session
  converse = do
    (device_id, challenge) ← authenticate
    open_session device_id
    take_telemetry device_id challenge

  -- `except Exception: self.errors += 1`
  unfoldable pub count_error : {A : Type 0} → Result A × Receiver → Receiver
  count_error (ok _, s) = s
  count_error (err _, s) = record s { errors = s.errors + 1 }

  -- `finally: if session_open and device_id is not None: ...`
  abbrev close_open : Option String → Bool → Registry → Registry
  close_open (some device_id) true r = Registry.session_closed device_id r
  close_open _ _ r = r

  unfoldable pub close_session : Receiver → Receiver
  close_session s = record s { registry = close_open s.device_id s.session_open s.registry }

  unfoldable pub handle_agent : Registry → ℕ → Link → Receiver
  unfolding count_error close_session
  handle_agent r errors l = close_session (
      count_error (
        converse (record {
          registry = r;
          errors = errors;
          link = l;
          device_id = none;
          session_open = false;
        })))
