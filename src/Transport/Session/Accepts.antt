-- ===== src/Transport/Session/Accepts.antt =====
-- relay_transport.py: what `verify_session_auth` accepts.
use printer_hmi_remote.Prelude.{
  ℕ, ◌+◌, ◌≤◌, ◌<◌, ◌≡◌, refl, true, some, arith, length, ok, Result-cases, inl, inr, eq_refl,
}
use printer_hmi_remote.Json.{Value, str, obj, Fields, lookup, get, pop, is_text, same_keys}
use printer_hmi_remote.Json.Laws.{IsJson, py_eq_refl}
use printer_hmi_remote.Codec.Base64
use printer_hmi_remote.Codec.Base64.{Bytes, IsBytes}
use printer_hmi_remote.Codec.Base64.RoundTrip.{decode-encode}
use printer_hmi_remote.Codec.Time.{seconds, timestamp, parse_timestamp-timestamp}
use printer_hmi_remote.Platform.{Platform, IsSound, max_instant}
use printer_hmi_remote.Enrollment.Keys.{b64decode, device_id}
use printer_hmi_remote.Enrollment.Signed.{signed_payload, append_field, add_signature}
use printer_hmi_remote.Enrollment.Operations.{PublicIdentity}
use printer_hmi_remote.Transport.Session.{
  session_signature_domain, clock_skew_seconds, validate_session_challenge, session_auth,
  verify_session_auth, bad_time, bad_encoding,
}

module _ (p : Platform) where
  -- What is verified is signed: by the key that the response shows, which the identifier it shows is
  -- derived from, over all of the response but its signature.
  pub record IsSigned (fs signed : Fields) : Type 0 where
    pub key : Bytes
    pub signature : Bytes
    pub key_shown : b64decode bad_encoding (get "device_public_key" fs) ≡ ok key
    pub signature_shown : b64decode bad_encoding (get "signature" fs) ≡ ok signature
    pub key_length : length key ≡ 32
    pub identifier_shown : is_text (device_id p key) (get "device_id" fs) ≡ true
    pub content : signed ≡ pop "signature" fs
    pub verified : p.verify key (signed_payload p session_signature_domain signed) signature ≡ true

  module _ (fs : Fields) (expected : Value) (now : ℕ) (signed : Fields) (key signature : Bytes)
      (ek : b64decode bad_encoding (get "device_public_key" fs) ≡ ok key)
      (es : b64decode bad_encoding (get "signature" fs) ≡ ok signature)
      (h : verify_session_auth p (obj fs) expected now ≡ ok signed) where
    verify_key_length : length key ≡ 32
    unfolding verify_session_auth
    verify_key_length = ground arith

    verify_identifier : is_text (device_id p key) (get "device_id" fs) ≡ true
    unfolding verify_session_auth
    verify_identifier = ground arith

    verify_content : signed ≡ pop "signature" fs
    unfolding verify_session_auth
    verify_content = ground arith

    verify_verified :
        p.verify key (signed_payload p session_signature_domain (pop "signature" fs)) signature
        ≡ true
    unfolding verify_session_auth
    verify_verified = ground arith

  verify_decodes_key :
      (fs : Fields) (expected : Value) (now : ℕ) (signed : Fields)
      → verify_session_auth p (obj fs) expected now ≡ ok signed
      → (key : Bytes) × (b64decode bad_encoding (get "device_public_key" fs) ≡ ok key)
  unfolding verify_session_auth
  verify_decodes_key fs expected now signed h =
      elim (Result-cases (b64decode bad_encoding (get "device_public_key" fs))) [
        | inl found ↦ found
        | inr (e, fails) ↦ absurd (ground arith)
      ]

  verify_decodes_signature :
      (fs : Fields) (expected : Value) (now : ℕ) (signed : Fields)
      → verify_session_auth p (obj fs) expected now ≡ ok signed
      → (signature : Bytes) × (b64decode bad_encoding (get "signature" fs) ≡ ok signature)
  unfolding verify_session_auth
  verify_decodes_signature fs expected now signed h =
      elim (Result-cases (b64decode bad_encoding (get "signature" fs))) [
        | inl found ↦ found
        | inr (e, fails) ↦ absurd (ground arith)
      ]

  -- An authentication that `verify_session_auth` accepts is signed by the key that it shows, which is
  -- the one that its device identifier is derived from, over all its fields but the signature.
  pub verify_session_auth-IsSigned :
      (fs : Fields) (expected : Value) (now : ℕ) (signed : Fields)
      → verify_session_auth p (obj fs) expected now ≡ ok signed
      → IsSigned fs signed
  verify_session_auth-IsSigned fs expected now signed h =
      let (key, ek) = verify_decodes_key fs expected now signed h in
      let (signature, es) = verify_decodes_signature fs expected now signed h in
      let same = verify_content fs expected now signed key signature ek es h in
      record {
        key = key;
        signature = signature;
        key_shown = ek;
        signature_shown = es;
        key_length = verify_key_length fs expected now signed key signature ek es h;
        identifier_shown = verify_identifier fs expected now signed key signature ek es h;
        content = same;
        verified = rw same (verify_verified fs expected now signed key signature ek es h);
      }

  decodes : (bs : Bytes) → IsBytes bs → b64decode bad_encoding (str (Base64.encode bs)) ≡ ok bs
  unfolding b64decode
  decodes bs h = rw (decode-encode bs h) refl

  module _ (sound : IsSound p) (k : Bytes) (shown : PublicIdentity) (challenge : Fields)
      (signed_at now issued expires : ℕ) where
    -- On a platform that satisfies the laws, what an agent with a key signs in answer to a challenge is
    -- accepted, where its identity is derived from the key and the platform accepts that key, the challenge has distinct keys, is valid for
    -- the agent when it is verified, was issued at most 30 seconds after the answer, expires after the
    -- answer was signed, and both its times are before the year 10000.
    pub verify_session_auth-sign :
        (relay_id : Value)
        → shown.device_id ≡ device_id p (p.public_key k)
        → shown.public_key ≡ Base64.encode (p.public_key k)
        → p.accepts_key (p.public_key k) ≡ true
        → lookup "relay_id" challenge ≡ some relay_id
        → IsJson (obj challenge)
        → validate_session_challenge p (obj challenge) (device_id p (p.public_key k)) relay_id now
          ≡ ok challenge
        → get "issued_at" challenge ≡ str (timestamp p issued)
        → get "expires_at" challenge ≡ str (timestamp p expires)
        → issued ≤ signed_at + seconds clock_skew_seconds
        → signed_at < expires
        → issued < max_instant
        → expires < max_instant
        → verify_session_auth p
            (obj (
              add_signature p session_signature_domain k
                (session_auth p shown challenge signed_at)))
            (obj challenge)
            now
          ≡ ok (session_auth p shown challenge signed_at)
    unfolding verify_session_auth session_auth append_field add_signature lookup pop same_keys
    verify_session_auth-sign relay_id h1 h2 h0 h3 h4 h5 h6 h7 h8 h9 h10 h11 = ground (
      arith,
      py_eq_refl (obj challenge) h4,
      decodes (p.public_key k) (sound.public_key-IsBytes k),
      decodes
          (p.sign k
            (signed_payload p session_signature_domain (session_auth p shown challenge signed_at)))
          (sound.sign-IsBytes k _),
      sound.length-public_key k,
      sound.length-sign k
          (signed_payload p session_signature_domain (session_auth p shown challenge signed_at)),
      sound.verify-sign k
          (signed_payload p session_signature_domain (session_auth p shown challenge signed_at)),
      eq_refl (device_id p (p.public_key k)),
      parse_timestamp-timestamp p sound bad_time signed_at (omega arith),
      parse_timestamp-timestamp p sound bad_time issued h10,
      parse_timestamp-timestamp p sound bad_time expires h11,
    )
