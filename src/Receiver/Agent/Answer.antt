-- ===== src/Receiver/Agent/Answer.antt =====
-- relay_receiver.py: whom a session lets in: an enrolled agent that answers the challenge.
use printer_hmi_remote.Prelude.{
  String, ◌≡◌, none, some, true, ok, ap, inl, inr, Result-cases, ◌∙◌, arith,
}
use printer_hmi_remote.Action.{pure, ◌>>◌, continue-eq-ok}
use printer_hmi_remote.Json.{Fields, obj, get, is_text}
use printer_hmi_remote.Transport.Session.{
  verify_session_auth, validate_agent_hello, create_session_challenge,
}
use printer_hmi_remote.Transport.Link.{Link, receive, transmit}
use printer_hmi_remote.Dict
use printer_hmi_remote.Dict.{Dict}
use printer_hmi_remote.Platform.{Platform}
use printer_hmi_remote.Receiver.Agent.{Moment, Receiver, greet, receive_auth, authenticate}

module _ (p : Platform) (devices : Dict String) (relay_id : String) (m : Moment) where
  greet-enrolled :
      (s : Receiver) (id key : String) (c : Fields)
      → (greet p devices relay_id m s).0 ≡ ok (id, key, c)
      → Dict.lookup id devices ≡ some key
  unfolding greet
  greet-enrolled s id key c h = ground arith

  -- The first two frames of a session: the hello, which names the device, and the answer to the
  -- challenge that the relay issues to this device with its own fresh values and sends it.
  pub record IsAnswer (l : Link) (id : String) (c auth : Fields) : Type 0 where
    pub hello : Fields
    pub is_hello : (receive p l).0 ≡ ok hello
    pub is_named : validate_agent_hello (obj hello) none ≡ ok id
    pub is_issued :
        create_session_challenge p id relay_id 60 m.challenged_at m.session_id m.nonce ≡ ok c
    pub is_answer : (receive p (transmit p c (receive p l).1).1).0 ≡ ok auth

  -- What is left to read after them.
  abbrev pub after_answer : Link → Fields → Link
  after_answer l c = (receive p (transmit p c (receive p l).1).1).1

  greet-issues :
      (s : Receiver) (id key : String) (c : Fields)
      → (greet p devices relay_id m s).0 ≡ ok (id, key, c)
      → create_session_challenge p id relay_id 60 m.challenged_at m.session_id m.nonce ≡ ok c
  unfolding greet
  greet-issues s id key c h = ground arith

  greet-named :
      (s : Receiver) (id key : String) (c : Fields)
      → (greet p devices relay_id m s).0 ≡ ok (id, key, c)
      → (hello : Fields) × ((receive p s.link).0 ≡ ok hello)
        × (validate_agent_hello (obj hello) none ≡ ok id)
  unfolding greet
  greet-named s id key c h = elim (Result-cases (receive p s.link).0) [
    | inl (hello, read) ↦ (hello, read, ground arith)
    | inr (e, fails) ↦ absurd (ground arith)
  ]

  link-greet :
      (s : Receiver) (id key : String) (c : Fields)
      → (greet p devices relay_id m s).0 ≡ ok (id, key, c)
      → (greet p devices relay_id m s).1.link ≡ (transmit p c (receive p s.link).1).1
  unfolding greet
  link-greet s id key c h = ground arith

  receive_auth-reads :
      (key : String) (c : Fields) (s : Receiver) (auth : Fields)
      → (receive_auth p devices relay_id m key c s).0 ≡ ok auth
      → (receive p s.link).0 ≡ ok auth
  unfolding receive_auth
  receive_auth-reads key c s auth h = ground arith

  link-receive_auth :
      (key : String) (c : Fields) (s : Receiver)
      → (receive_auth p devices relay_id m key c s).1.link ≡ (receive p s.link).1
  unfolding receive_auth
  link-receive_auth key c s = ground arith

  -- What the relay has checked of an authentication, and that it is the answer to its challenge.
  abbrev pub IsVerified : String → Fields → Fields → Type 0
  IsVerified key c auth =
      (is_text key (get "device_public_key" auth) ≡ true)
      × ((signed : Fields) × (verify_session_auth p (obj auth) (obj c) m.verified_at ≡ ok signed))

  receive_auth-IsVerified :
      (key : String) (c : Fields) (s : Receiver) (auth : Fields)
      → (receive_auth p devices relay_id m key c s).0 ≡ ok auth
      → IsVerified key c auth
  unfolding receive_auth
  receive_auth-IsVerified key c s auth h =
      elim (Result-cases (verify_session_auth p (obj auth) (obj c) m.verified_at)) [
        | inl (signed, verified) ↦ (ground arith, (signed, verified))
        | inr (e, fails) ↦ absurd (ground arith)
      ]

  link-authenticate :
      (s : Receiver) (id key : String) (c : Fields)
      → (greet p devices relay_id m s).0 ≡ ok (id, key, c)
      → (auth : Fields)
      → (receive_auth p devices relay_id m key c (greet p devices relay_id m s).1).0 ≡ ok auth
      → (authenticate p devices relay_id m s).1.link ≡ after_answer s.link c
  unfolding authenticate
  link-authenticate s id key c greeted auth received =
      let s1 = (greet p devices relay_id m s).1 in
      rw (greeted, received)
        (link-receive_auth key c s1 ∙ ap (λ l. (receive p l).1) (link-greet s id key c greeted))

  -- An agent that is let in is enrolled, and its answer to the relay's challenge was verified for the
  -- key that it is enrolled with.
  pub authenticate-IsVerified :
      (s : Receiver) (id : String) (c : Fields)
      → (authenticate p devices relay_id m s).0 ≡ ok (id, c)
      → (key : String) × (auth : Fields) × (Dict.lookup id devices ≡ some key)
        × IsAnswer s.link id c auth
        × IsVerified key c auth
        × ((authenticate p devices relay_id m s).1.link ≡ after_answer s.link c)
  unfolding authenticate
  authenticate-IsVerified s id c h =
      let s1 = (greet p devices relay_id m s).1 in
      let ((id', key, c'), eg, h1) =
        continue-eq-ok (greet p devices relay_id m s).0
          (λ a. receive_auth p devices relay_id m a.1 a.2 >> pure (a.0, a.2)) s1 h in
      let (auth, ea, h2) =
        continue-eq-ok (receive_auth p devices relay_id m key c' s1).0 (λ _. pure (id', c')) _ h1 in
      let same_id : id' ≡ id = cc h2 in
      let same_c : c' ≡ c = cc h2 in
      let greeted : (greet p devices relay_id m s).0 ≡ ok (id, key, c) = cc (eg, same_id, same_c) in
      let received : (receive_auth p devices relay_id m key c s1).0 ≡ ok auth = cc (ea, same_c) in
      let (hello, read, named) = greet-named s id key c greeted in
      (
        key,
        auth,
        greet-enrolled s id key c greeted,
        record {
          hello = hello;
          is_hello = read;
          is_named = named;
          is_issued = greet-issues s id key c greeted;
          is_answer =
              rw (← link-greet s id key c greeted) (receive_auth-reads key c s1 auth received);
        },
        receive_auth-IsVerified key c s1 auth received,
        link-authenticate s id key c greeted auth received,
      )
