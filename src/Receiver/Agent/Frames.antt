-- ===== src/Receiver/Agent/Frames.antt =====
-- relay_receiver.py: what the parts of a session leave alone.
use printer_hmi_remote.Prelude.{String, ◌≡◌, Option, some, Bool, true, ok, ap, ◌∙◌, arith}
use printer_hmi_remote.Action.{pure, ◌>>◌, continue-keeps, continue-ensures}
use printer_hmi_remote.Json.{Fields}
use printer_hmi_remote.Dict.{Dict}
use printer_hmi_remote.Platform.{Platform}
use printer_hmi_remote.Registry.{session_closed, sessions, Registry}
use printer_hmi_remote.Registry.Laws.{active_sessions-publish}
use printer_hmi_remote.Receiver.Agent.{
  Moment, Receiver, greet, receive_auth, authenticate, receive_snapshot, accept_snapshot,
  take_telemetry, count_error, close_session,
}

module _ (p : Platform) (devices : Dict String) (relay_id : String) (m : Moment) where
  abbrev outside : Receiver → Registry × Bool
  outside s = (s.registry, s.session_open)

  outside-greet : (s : Receiver) → outside (greet p devices relay_id m s).1 ≡ outside s
  unfolding greet
  outside-greet s = ground arith

  device_id-greet :
      (s : Receiver) (id key : String) (c : Fields)
      → (greet p devices relay_id m s).0 ≡ ok (id, key, c)
      → (greet p devices relay_id m s).1.device_id ≡ some id
  unfolding greet
  device_id-greet s id key c h = ground arith

  outside-receive_auth :
      (key : String) (c : Fields) (s : Receiver)
      → outside (receive_auth p devices relay_id m key c s).1 ≡ outside s
  unfolding receive_auth
  outside-receive_auth key c s = ground arith

  device_id-receive_auth :
      (key : String) (c : Fields) (s : Receiver)
      → (receive_auth p devices relay_id m key c s).1.device_id ≡ s.device_id
  unfolding receive_auth
  device_id-receive_auth key c s = ground arith

  pub outside-authenticate :
      (s : Receiver) → outside (authenticate p devices relay_id m s).1 ≡ outside s
  unfolding authenticate
  outside-authenticate s =
      let s1 = (greet p devices relay_id m s).1 in
      continue-keeps (λ (t : Receiver). outside t ≡ outside s) (greet p devices relay_id m s).0
        (λ a. receive_auth p devices relay_id m a.1 a.2 >> pure (a.0, a.2)) s1 (outside-greet s)
        (λ a _.
          continue-keeps (λ (t : Receiver). outside t ≡ outside s)
            (receive_auth p devices relay_id m a.1 a.2 s1).0 (λ _. pure (a.0, a.2)) _
            (outside-receive_auth a.1 a.2 s1 ∙ outside-greet s)
            (λ _ _. outside-receive_auth a.1 a.2 s1 ∙ outside-greet s))

  pub device_id-authenticate :
      (s : Receiver) (id : String) (c : Fields)
      → (authenticate p devices relay_id m s).0 ≡ ok (id, c)
      → (authenticate p devices relay_id m s).1.device_id ≡ some id
  unfolding authenticate
  device_id-authenticate s id c h =
      let s1 = (greet p devices relay_id m s).1 in
      continue-ensures (λ (t : Receiver). t.device_id ≡ some id) (greet p devices relay_id m s).0
        (λ a. receive_auth p devices relay_id m a.1 a.2 >> pure (a.0, a.2)) s1
        (λ a eg.
          continue-ensures (λ (t : Receiver). t.device_id ≡ some id)
            (receive_auth p devices relay_id m a.1 a.2 s1).0 (λ _. pure (a.0, a.2)) _
            (λ _ _ done.
              let same : a.0 ≡ id = cc done in
              device_id-receive_auth a.1 a.2 s1 ∙ device_id-greet s a.0 a.1 a.2 eg ∙ ap some same))
        h

  pub registry-authenticate :
      (s : Receiver) → (authenticate p devices relay_id m s).1.registry ≡ s.registry
  registry-authenticate s = ap (λ x. x.0) (outside-authenticate s)

  pub session_open-authenticate :
      (s : Receiver) → (authenticate p devices relay_id m s).1.session_open ≡ s.session_open
  session_open-authenticate s = ap (λ x. x.1) (outside-authenticate s)

  -- The registry apart, nothing but the link changes.
  pub registry-receive_snapshot :
      (c : Fields) (s : Receiver)
      → (receive_snapshot p devices relay_id m c s).1.registry ≡ s.registry
  unfolding receive_snapshot
  registry-receive_snapshot c s = ground arith

  abbrev locals : Receiver → Option String × Bool
  locals s = (s.device_id, s.session_open)

  locals-receive_snapshot :
      (c : Fields) (s : Receiver) → locals (receive_snapshot p devices relay_id m c s).1 ≡ locals s
  unfolding receive_snapshot
  locals-receive_snapshot c s = ground arith

  active_sessions-accept_snapshot :
      (id : String) (c snapshot : Fields) (s : Receiver)
      → (accept_snapshot p devices relay_id m id c snapshot s).1.registry.active_sessions
        ≡ s.registry.active_sessions
  unfolding accept_snapshot
  active_sessions-accept_snapshot id c snapshot s =
      ground (arith, active_sessions-publish p id 1 snapshot m.published_at m.disk_fails s.registry)

  locals-accept_snapshot :
      (id : String) (c snapshot : Fields) (s : Receiver)
      → locals (accept_snapshot p devices relay_id m id c snapshot s).1 ≡ locals s
  unfolding accept_snapshot
  locals-accept_snapshot id c snapshot s = ground arith

  pub active_sessions-take_telemetry :
      (id : String) (c : Fields) (s : Receiver)
      → (take_telemetry p devices relay_id m id c s).1.registry.active_sessions
        ≡ s.registry.active_sessions
  unfolding take_telemetry
  active_sessions-take_telemetry id c s =
      let s' = (receive_snapshot p devices relay_id m c s).1 in
      let front = registry-receive_snapshot c s in
      continue-keeps (λ (t : Receiver). t.registry.active_sessions ≡ s.registry.active_sessions)
        (receive_snapshot p devices relay_id m c s).0 (accept_snapshot p devices relay_id m id c) s'
        (ap (λ r. r.active_sessions) front)
        (λ snapshot _.
          active_sessions-accept_snapshot id c snapshot s' ∙ ap (λ r. r.active_sessions) front)

  pub locals-take_telemetry :
      (id : String) (c : Fields) (s : Receiver)
      → locals (take_telemetry p devices relay_id m id c s).1 ≡ locals s
  unfolding take_telemetry
  locals-take_telemetry id c s =
      let s' = (receive_snapshot p devices relay_id m c s).1 in
      let front = locals-receive_snapshot c s in
      continue-keeps (λ (t : Receiver). locals t ≡ locals s)
        (receive_snapshot p devices relay_id m c s).0 (accept_snapshot p devices relay_id m id c) s'
        front (λ snapshot _. locals-accept_snapshot id c snapshot s' ∙ front)

  -- Whether it is closed in the end: after the confirmation, the device is the one that was opened.
  pub close_session-take_telemetry :
      (id : String) (c : Fields) (s : Receiver)
      → s.device_id ≡ some id
      → s.session_open ≡ true
      → (close_session p devices relay_id m (
          count_error p devices relay_id m
            (take_telemetry p devices relay_id m id c s))).registry.active_sessions
        ≡ (session_closed id s.registry).active_sessions
  unfolding close_session count_error session_closed sessions
  close_session-take_telemetry id c s named opened = ground (
    arith,
    active_sessions-take_telemetry id c s,
    ap (λ x. x.0) (locals-take_telemetry id c s),
    ap (λ x. x.1) (locals-take_telemetry id c s),
  )
