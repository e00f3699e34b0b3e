-- ===== src/Service/Simulator.antt =====
-- relay_simulator.py: `_handle_client`, a relay that takes one snapshot of one device.
use printer_hmi_remote.Prelude.{
  ℕ, String, Bool, true, false, not, ◌||◌, ◌&&◌, ◌==◌, some, List, [], ◌∷◌, ◌++◌, codes, str_eq,
  refl, ◌≡◌, ◌⊎◌, inl, inr, Error, transport, Result, ok, err, arith,
}
use printer_hmi_remote.Prelude.Int.{pos}
use printer_hmi_remote.Action.{
  Action, lift, gets, modify, focus, check, ◌>>=◌, ◌>>◌, continue-keeps, check-keeps,
}
use printer_hmi_remote.Json.{int, str, obj, Fields, end, field, get, same_keys, is_one, is_text}
use printer_hmi_remote.Json.Canonical.{canonical}
use printer_hmi_remote.Codec.Base64.{Bytes}
use printer_hmi_remote.Codec.Time.{timestamp}
use printer_hmi_remote.Platform.{Platform}
use printer_hmi_remote.Transport.Link.{Link, receive, transmit}
use printer_hmi_remote.Transport.Session.{
  default_session_lifetime, validate_agent_hello, create_session_challenge, verify_session_auth,
}

-- `errors` holds the exceptions that were caught.
pub record Simulator : Type 0 where
  pub link : Link
  pub issued_sessions : List String
  pub received : List Fields
  pub errors : List Error

-- What a session reads of the clock, and what it draws.
pub record Draw : Type 0 where
  pub challenged_at : ℕ
  pub verified_at : ℕ
  pub accepted_at : ℕ
  pub session_id : String
  pub nonce : Bytes

abbrev on_link : {A : Type 0} → Action Link A → Action Simulator A
on_link = focus (λ (s : Simulator). s.link) (λ l s. record s { link = l })

unfoldable pub starts_codes : Bytes → Bytes → Bool
starts_codes [] text = true
starts_codes (a ∷ as') [] = false
starts_codes (a ∷ as') (b ∷ bs) = a == b && starts_codes as' bs

-- `part in text`
unfoldable pub contains_codes : Bytes → Bytes → Bool
unfolding starts_codes
contains_codes part [] = starts_codes part []
contains_codes part (b ∷ bs) = starts_codes part (b ∷ bs) || contains_codes part bs

abbrev is_issued : String → List String → Bool
is_issued id [] = false
is_issued id (x ∷ xs) = str_eq x id || is_issued id xs

abbrev envelope_fields : List String
envelope_fields = "protocol_version" ∷ "type" ∷ "session_id" ∷ "sequence" ∷ "snapshot" ∷ []

-- The first envelope of a session.
unfoldable pub is_first_envelope : String → Fields → Bool
is_first_envelope session_id envelope =
    same_keys envelope envelope_fields
    && is_one (get "protocol_version" envelope)
    && is_text "agent.telemetry" (get "type" envelope)
    && is_text session_id (get "session_id" envelope)
    && is_one (get "sequence" envelope)

module _ (p : Platform) where
  -- Whether private fields can be seen in the snapshot's text. Its separators are not those of
  -- `_canonical`, but lie outside of the texts that are searched for.
  unfoldable pub shows_private : Fields → Bool
  unfolding contains_codes
  shows_private envelope =
      let text = canonical p (get "snapshot" envelope) in
      contains_codes (codes "socket_path") text || contains_codes (codes "\"filename\"") text

  module _ (device_id relay_id : String) (draw : Draw) where
    abbrev ready : Fields
    ready = field "protocol_version" (int (pos 1)) (
        field "type" (str "relay.session-ready") (
          field "session_id" (str draw.session_id) (
            field "challenge_id" (str draw.session_id) (
              field "relay_id" (str relay_id)
                (field "accepted_at" (str (timestamp p draw.accepted_at)) end)))))

    abbrev ack : Fields
    ack = field "protocol_version" (int (pos 1)) (
        field "type" (str "relay.telemetry-ack")
          (field "session_id" (str draw.session_id) (field "sequence" (int (pos 1)) end)))

    -- From the challenge that is made to the confirmation of the session.
    unfoldable pub agree : Fields → Action Simulator Unit
    agree challenge = do
      issued ← gets λ (s : Simulator). s.issued_sessions
      check (is_issued draw.session_id issued) (transport "relay generated a duplicate session")
      modify λ (s : Simulator). record s { issued_sessions = draw.session_id ∷ s.issued_sessions }
      on_link (transmit p challenge)
      authentication ← on_link (receive p)
      lift (verify_session_auth p (obj authentication) (obj challenge) draw.verified_at)
      on_link (transmit p ready)

    unfoldable pub open_session : Action Simulator Unit
    open_session = do
      hello ← on_link (receive p)
      lift (validate_agent_hello (obj hello) (some device_id))
      challenge ← lift (
          create_session_challenge p device_id relay_id default_session_lifetime draw.challenged_at
            draw.session_id draw.nonce)
      agree challenge

    unfoldable pub keep_envelope : Fields → Action Simulator Unit
    keep_envelope envelope = do
      modify λ (s : Simulator). record s { received = s.received ++ (envelope ∷ []) }
      on_link (transmit p ack)

    -- An envelope is checked, kept and acknowledged.
    unfoldable pub take_envelope : Fields → Action Simulator Unit
    take_envelope envelope = do
      check (not (is_first_envelope draw.session_id envelope))
          (transport "invalid telemetry envelope")
      check (shows_private envelope) (transport "private local fields reached relay")
      keep_envelope envelope

    unfoldable pub serve : Action Simulator Unit
    serve = open_session >> (on_link (receive p) >>= take_envelope)

    -- `except Exception`
    unfoldable pub record_error : Result (Unit {0}) × Simulator → Simulator
    record_error (ok u, s) = s
    record_error (err e, s) = record s { errors = s.errors ++ (e ∷ []) }

    unfoldable pub handle_client : Simulator → Simulator
    handle_client s = record_error (serve s)

    -- What a session may leave in `received`, beside what was there.
    abbrev pub IsTaken : List Fields → Simulator → Type 0
    IsTaken before s =
        (s.received ≡ before)
        ⊎ ((envelope : Fields) × (s.received ≡ before ++ (envelope ∷ []))
            × (is_first_envelope draw.session_id envelope ≡ true)
            × (shows_private envelope ≡ false))

    received-agree :
        (before : List Fields) (challenge : Fields) (s : Simulator)
        → s.received ≡ before
        → (agree challenge s).1.received ≡ before
    unfolding agree
    received-agree before challenge s h = ground arith

    received-keep_envelope :
        (before : List Fields) (envelope : Fields) (s : Simulator)
        → s.received ≡ before
        → (keep_envelope envelope s).1.received ≡ before ++ (envelope ∷ [])
    unfolding keep_envelope
    received-keep_envelope before envelope s h = rw h refl

    received-open_session :
        (before : List Fields) (s : Simulator)
        → s.received ≡ before
        → (open_session s).1.received ≡ before
    unfolding open_session
    received-open_session before s h =
        let P : Simulator → Type 0 = λ t. t.received ≡ before in
        let (r1, l1) = receive p s.link in
        let s1 = record s { link = l1 } in
        continue-keeps P r1 _ s1 h λ hello _.
          continue-keeps P (validate_agent_hello (obj hello) (some device_id)) _ s1 h λ d _.
            continue-keeps P
              (create_session_challenge p device_id relay_id default_session_lifetime
                draw.challenged_at draw.session_id draw.nonce)
              _ s1 h λ challenge _. received-agree before challenge s1 h

    take_envelope-IsTaken :
        (before : List Fields) (envelope : Fields) (s : Simulator)
        → s.received ≡ before
        → IsTaken before (take_envelope envelope s).1
    unfolding take_envelope
    take_envelope-IsTaken before envelope s h =
        let invalid = not (is_first_envelope draw.session_id envelope) in
        check-keeps (IsTaken before) invalid (transport "invalid telemetry envelope")
          (check (shows_private envelope) (transport "private local fields reached relay")
            >> keep_envelope envelope)
          s (inl h)
          λ valid.
            check-keeps (IsTaken before) (shows_private envelope)
              (transport "private local fields reached relay") (keep_envelope envelope) s (inl h)
              λ clean.
                inr (envelope, received-keep_envelope before envelope s h, ground arith, clean)

    serve-IsTaken : (s : Simulator) → IsTaken s.received (serve s).1
    unfolding serve
    serve-IsTaken s =
        let (r, s1) = open_session s in
        let h1 = received-open_session s.received s refl in
        let (r2, l2) = receive p s1.link in
        let s2 = record s1 { link = l2 } in
        continue-keeps (IsTaken s.received) r _ s1 (inl h1) λ u _.
          continue-keeps (IsTaken s.received) r2 take_envelope s2 (inl h1)
            λ envelope _. take_envelope-IsTaken s.received envelope s2 h1

    record_error-IsTaken :
        (before : List Fields) (outcome : Result (Unit {0}) × Simulator)
        → IsTaken before outcome.1
        → IsTaken before (record_error outcome)
    unfolding record_error
    record_error-IsTaken before (ok u, s) h = h
    record_error-IsTaken before (err e, s) h = h

    -- A session adds at most one envelope to what the simulator has received: one that is formed for this
    -- session and in whose snapshot no socket path and no file name can be seen.
    pub handle_client-IsTaken : (s : Simulator) → IsTaken s.received (handle_client s)
    unfolding handle_client
    handle_client-IsTaken s = record_error-IsTaken s.received (serve s) (serve-IsTaken s)
