-- ===== src/Receiver/Publication.antt =====
-- relay_receiver.py: what a session with an agent puts into the registry.
use printer_hmi_remote.Prelude.{
  ℕ, String, ◌≡◌, ◌⊎◌, inl, inr, none, some, false, Result, ok, arith, ap, sym, ◌∙◌, subst,
  Result-cases,
}
use printer_hmi_remote.Action.{lift, ◌>>=◌, continue-eq-ok}
use printer_hmi_remote.Json.{Fields, get}
use printer_hmi_remote.Dict
use printer_hmi_remote.Dict.{Dict, lookup-insert}
use printer_hmi_remote.Platform.{Platform}
use printer_hmi_remote.Registry.{Registry, Record, session_opened, session_closed, new_record}
use printer_hmi_remote.Registry.Laws.{records-publish}
use printer_hmi_remote.Transport.Link.{Link, receive, transmit}
use printer_hmi_remote.Codec.Time.{timestamp}
use printer_hmi_remote.Transport.Sanitize.Privacy.{IsSanitized}
use printer_hmi_remote.Receiver.Envelope.{session_ready, let_through, let_through-IsSanitized}
use printer_hmi_remote.Receiver.Agent.{
  Moment, Receiver, authenticate, open_session, on_link, receive_snapshot, accept_snapshot,
  take_telemetry, converse, count_error, close_session, handle_agent,
}
use printer_hmi_remote.Receiver.Agent.Answer.{
  IsAnswer, IsVerified, after_answer, authenticate-IsVerified,
}
use printer_hmi_remote.Receiver.Agent.Frames.{registry-authenticate, registry-receive_snapshot}

module _ (p : Platform) (devices : Dict String) (relay_id : String) (m : Moment) where
  -- The telemetry that follows the confirmation of a session, and the snapshot that is taken of it.
  abbrev pub confirmed : Link → Fields → Link
  confirmed l c =
      (transmit p (session_ready (get "session_id" c) relay_id (timestamp p m.accepted_at)) l).1

  pub record IsTelemetry (l : Link) (c content : Fields) : Type 0 where
    pub envelope : Fields
    pub is_next : (receive p (confirmed l c)).0 ≡ ok envelope
    pub is_let_through : let_through p envelope (get "session_id" c) ≡ ok content
    pub is_sanitized : IsSanitized p (get "snapshot" envelope) content

  receive_snapshot-IsTelemetry :
      (c : Fields) (s : Receiver) (content : Fields)
      → (receive_snapshot p devices relay_id m c s).0 ≡ ok content
      → IsTelemetry s.link c content
  unfolding receive_snapshot
  receive_snapshot-IsTelemetry c s content h =
      let session_id = get "session_id" c in
      let (_, et, h1) =
        continue-eq-ok
          (on_link (transmit p (session_ready session_id relay_id (timestamp p m.accepted_at))) s).0
          (λ _. on_link (receive p) >>= λ envelope. lift (let_through p envelope session_id)) _ h in
      let (envelope, ee, h2) =
        continue-eq-ok
          (on_link (receive p)
            (on_link (transmit p (session_ready session_id relay_id (timestamp p m.accepted_at)))
              s).1).0
          (λ envelope. lift (let_through p envelope session_id)) _ h1 in
      record {
        envelope = envelope;
        is_next = ee;
        is_let_through = h2;
        is_sanitized = let_through-IsSanitized p envelope session_id content h2;
      }

  -- The registry's records after a session on the link, where it published.
  pub record Publication (l : Link) (before after : Dict Record) : Type 0 where
    pub device_id : String
    pub enrolled_key : String
    pub challenge : Fields
    pub authentication : Fields
    pub content : Fields
    pub is_enrolled : Dict.lookup device_id devices ≡ some enrolled_key
    pub is_answer : IsAnswer p devices relay_id m l device_id challenge authentication
    pub is_verified : IsVerified p devices relay_id m enrolled_key challenge authentication
    pub is_telemetry : IsTelemetry (after_answer p devices relay_id m l challenge) challenge content
    pub inserted :
        after
        ≡ Dict.insert device_id
            (record {
              device_id = device_id;
              sequence = 1;
              received_at = timestamp p m.published_at;
              received_epoch = m.published_at;
              snapshot = content;
            })
            before

  records-accept_snapshot :
      (id : String) (c content : Fields) (s : Receiver)
      → ((accept_snapshot p devices relay_id m id c content s).1.registry.records
          ≡ s.registry.records)
        ⊎ ((accept_snapshot p devices relay_id m id c content s).1.registry.records
            ≡ Dict.insert id (new_record p id 1 content m.published_at) s.registry.records)
  unfolding accept_snapshot
  records-accept_snapshot id c content s =
      ground (arith, records-publish p id 1 content m.published_at m.disk_fails s.registry)

  records-take_telemetry :
      (id : String) (c : Fields) (s : Receiver)
      → ((take_telemetry p devices relay_id m id c s).1.registry.records ≡ s.registry.records)
        ⊎ ((content : Fields) × IsTelemetry s.link c content
            × ((take_telemetry p devices relay_id m id c s).1.registry.records
                ≡ Dict.insert id (new_record p id 1 content m.published_at) s.registry.records))
  unfolding take_telemetry
  records-take_telemetry id c s =
      let s' = (receive_snapshot p devices relay_id m c s).1 in
      let same = ap (λ r. r.records) (registry-receive_snapshot p devices relay_id m c s) in
      elim (Result-cases (receive_snapshot p devices relay_id m c s).0) [
        | inr (e, refused) ↦ inl (rw refused same)
        | inl (content, taken) ↦ elim (records-accept_snapshot id c content s') [
          | inl unchanged ↦ inl (rw taken (unchanged ∙ same))
          | inr new ↦ inr (
            content,
            receive_snapshot-IsTelemetry c s content taken,
            rw taken (new ∙ ap (Dict.insert id (new_record p id 1 content m.published_at)) same),
          )
        ]
      ]

  records-converse :
      (s : Receiver)
      → ((converse p devices relay_id m s).1.registry.records ≡ s.registry.records)
        ⊎ Publication s.link s.registry.records (converse p devices relay_id m s).1.registry.records
  unfolding converse open_session session_opened
  records-converse s =
      let same = ap (λ r. r.records) (registry-authenticate p devices relay_id m s) in
      let s1 = (authenticate p devices relay_id m s).1 in
      elim (Result-cases (authenticate p devices relay_id m s).0) [
        | inr (e, refused) ↦ inl (rw refused same)
        | inl ((id, c), let_in) ↦
            let s2 = (open_session p devices relay_id m id s1).1 in
            let (key, auth, enrolled, answer, verified, left) =
              authenticate-IsVerified p devices relay_id m s id c let_in in
            elim (records-take_telemetry id c s2) [
              | inl unchanged ↦ inl (rw let_in (unchanged ∙ same))
              | inr (content, telemetry, new) ↦ inr (record {
                device_id = id;
                enrolled_key = key;
                challenge = c;
                authentication = auth;
                content = content;
                is_enrolled = enrolled;
                is_answer = answer;
                is_verified = verified;
                is_telemetry = subst (λ l. IsTelemetry l c content) left telemetry;
                inserted =
                    rw let_in
                      (new ∙ ap (Dict.insert id (new_record p id 1 content m.published_at)) same);
              })
            ]
      ]

  records-finish :
      (r : Result (Unit {0})) (s : Receiver)
      → (close_session p devices relay_id m
          (count_error p devices relay_id m (r, s))).registry.records
        ≡ s.registry.records
  unfolding close_session count_error session_closed
  records-finish r s = ground arith

  -- Whatever an agent sends, its session leaves the records alone, or it replaces the record of one
  -- device: the enrolled one that the hello names, whose next frame answers the challenge that the relay
  -- has just issued to it and is verified for the enrolled key, and with what the filter makes of the
  -- snapshot in the frame after it.
  pub records-handle_agent :
      (r : Registry) (errors : ℕ) (l : Link)
      → ((handle_agent p devices relay_id m r errors l).registry.records ≡ r.records)
        ⊎ Publication l r.records (handle_agent p devices relay_id m r errors l).registry.records
  unfolding handle_agent
  records-handle_agent r errors l =
      let s : Receiver = record {
        registry = r;
        errors = errors;
        link = l;
        device_id = none;
        session_open = false;
      } in
      let (outcome, s') = converse p devices relay_id m s in
      let same =
        sym (
          records-finish (converse p devices relay_id m s).0 (converse p devices relay_id m s).1) in
      subst (λ after. (after ≡ r.records) ⊎ Publication l r.records after) same (records-converse s)
