-- ===== src/Receiver/Sessions.antt =====
-- relay_receiver.py: a session is counted while it is open, and no longer.
use printer_hmi_remote.Prelude.{
  ℕ, String, ◌≡◌, refl, inl, inr, none, some, true, false, Result, err, arith, ap, ◌∙◌,
  Result-cases,
}
use printer_hmi_remote.Json.{Fields}
use printer_hmi_remote.Dict.{Dict}
use printer_hmi_remote.Platform.{Platform}
use printer_hmi_remote.Registry.{Registry, sessions, session_opened, session_closed}
use printer_hmi_remote.Registry.Laws.{session_closed-session_opened}
use printer_hmi_remote.Transport.Link.{Link}
use printer_hmi_remote.Receiver.Agent.{
  Moment, Receiver, authenticate, take_telemetry, converse, count_error, close_session,
  handle_agent,
}
use printer_hmi_remote.Receiver.Agent.Frames.{
  registry-authenticate, session_open-authenticate, device_id-authenticate,
  close_session-take_telemetry,
}

same_sessions :
    (e : String) (r r' : Registry)
    → r.active_sessions ≡ r'.active_sessions
    → sessions e r ≡ sessions e r'
unfolding sessions
same_sessions e r r' h = ground (arith, h)

module _ (p : Platform) (devices : Dict String) (relay_id : String) (m : Moment) where
  abbrev finish : Result (Unit {0}) × Receiver → Registry
  finish outcome =
      (close_session p devices relay_id m (count_error p devices relay_id m outcome)).registry

  finish-unopened :
      (r : Result (Unit {0})) (s : Receiver) → s.session_open ≡ false → finish (r, s) ≡ s.registry
  unfolding close_session count_error
  finish-unopened r s h = ground arith

  opened : String → Receiver → Receiver
  opened id s = record s { registry = session_opened id s.registry; session_open = true }

  finish-opened :
      (id : String) (c : Fields) (s : Receiver)
      → s.device_id ≡ some id
      → (finish (take_telemetry p devices relay_id m id c (opened id s))).active_sessions
        ≡ (session_closed id (session_opened id s.registry)).active_sessions
  unfolding opened
  finish-opened id c s h =
      close_session-take_telemetry p devices relay_id m id c (opened id s) h refl

  -- A session leaves the number of open sessions of every device as it found it, however it ends.
  pub sessions-handle_agent :
      (r : Registry) (errors : ℕ) (l : Link) (e : String)
      → sessions e (handle_agent p devices relay_id m r errors l).registry ≡ sessions e r
  unfolding handle_agent converse opened
  sessions-handle_agent r errors l e =
      let s : Receiver = record {
        registry = r;
        errors = errors;
        link = l;
        device_id = none;
        session_open = false;
      } in
      let s1 = (authenticate p devices relay_id m s).1 in
      let same = registry-authenticate p devices relay_id m s in
      elim (Result-cases (authenticate p devices relay_id m s).0) [
        | inl ((id, c), let_in) ↦ rw let_in (
            same_sessions e _ _
              (finish-opened id c s1 (device_id-authenticate p devices relay_id m s id c let_in))
            ∙ session_closed-session_opened id e s1.registry
            ∙ ap (sessions e) same)
        | inr (e', refused) ↦ rw refused (
            ap (sessions e) (
              finish-unopened (err e') s1 (session_open-authenticate p devices relay_id m s)
              ∙ same))
      ]
