-- ===== src/Transport/Session.antt =====
-- relay_transport.py: the messages of a session, how the agent signs and the relay verifies them.
pub mod Accepts
use printer_hmi_remote.Prelude.{
  ℕ, ◌+◌, ◌-◌, String, Bool, false, not, ◌&&◌, ◌||◌, Option, none, some, List, [], ◌∷◌, ◌++◌, ◌==◌,
  ltb, leb, length, codes, str_eq, Error, transport, value, other, Result, ok, err, need, raise_if,
  ◌>>=◌, ◌>>◌,
}
use printer_hmi_remote.Prelude.Int.{pos}
use printer_hmi_remote.Json.{
  Value, int, str, obj, Fields, end, field, lookup, get, pop, as_dict, as_str, same_keys, is_one,
  is_text, py_eq,
}
use printer_hmi_remote.Codec.Base64
use printer_hmi_remote.Codec.Base64.{Bytes}
use printer_hmi_remote.Codec.Pattern.{is_uuid, matches_device_id, matches_relay_id}
use printer_hmi_remote.Codec.Time.{seconds, timestamp, parse_timestamp}
use printer_hmi_remote.Platform.{Platform}
use printer_hmi_remote.Enrollment.Keys.{b64decode, device_id}
use printer_hmi_remote.Enrollment.Signed.{domain, signed_payload}
use printer_hmi_remote.Enrollment.Operations.{PublicIdentity}

abbrev pub session_signature_domain : Bytes
session_signature_domain = domain "PrinterHMI Remote relay session authentication v1"

abbrev pub max_session_lifetime : ℕ
max_session_lifetime = 120

abbrev pub default_session_lifetime : ℕ
default_session_lifetime = 60

abbrev pub clock_skew_seconds : ℕ
clock_skew_seconds = 30

abbrev bad_encoding : Error
bad_encoding = transport "invalid encoded value"

abbrev bad_time : Error
bad_time = transport "invalid session timestamp"

-- The `ValueError` of `from_public_bytes`, which the library words.
abbrev pub bad_public_key : Error
bad_public_key = value "invalid public key"

abbrev pub hello_fields : List String
hello_fields = "protocol_version" ∷ "type" ∷ "device_id" ∷ []

abbrev pub session_challenge_fields : List String
session_challenge_fields =
    "protocol_version" ∷ "type" ∷ "session_id" ∷ "relay_id" ∷ "nonce" ∷ "audience" ∷ "issued_at"
    ∷ "expires_at" ∷ []

abbrev pub session_auth_fields : List String
session_auth_fields =
    "protocol_version" ∷ "type" ∷ "challenge" ∷ "device_id" ∷ "device_public_key" ∷ "signed_at"
    ∷ "signature" ∷ []

-- `create_agent_hello`, of the identity that the store shows.
unfoldable pub create_agent_hello : PublicIdentity → Fields
create_agent_hello identity =
    field "protocol_version" (int (pos 1))
      (field "type" (str "agent.hello") (field "device_id" (str identity.device_id) end))

abbrev differs : Option String → String → Bool
differs none id = false
differs (some expected) id = not (str_eq id expected)

unfoldable pub validate_agent_hello : Value → Option String → Result String
validate_agent_hello document expected_device_id = do
  fs ← need (as_dict document) (transport "invalid agent hello")
  raise_if
      (not (same_keys fs hello_fields)
        || not (is_one (get "protocol_version" fs))
        || not (is_text "agent.hello" (get "type" fs)))
      (transport "invalid agent hello")
  id ← need (as_str (get "device_id" fs)) (transport "invalid agent hello identity")
  raise_if (not (matches_device_id id)) (transport "invalid agent hello identity")
  raise_if (differs expected_device_id id) (transport "agent hello identity is not enrolled")
  ok id

unfoldable pub check_session_lifetime : ℕ → ℕ → ℕ → Result (Unit {0})
check_session_lifetime issued expires now = do
  raise_if (leb expires issued || ltb (seconds max_session_lifetime) (expires - issued))
      (transport "invalid relay session lifetime")
  raise_if (ltb (now + seconds clock_skew_seconds) issued)
      (transport "relay session is not yet valid")
  raise_if (leb expires now) (transport "relay session has expired")

module _ (p : Platform) where
  -- `create_session_challenge`, with the fresh session and nonce as arguments.
  unfoldable pub create_session_challenge : String → String → ℕ → ℕ → String → Bytes → Result Fields
  create_session_challenge device relay_id lifetime now session_id nonce = do
    raise_if (not (matches_device_id device)) (transport "invalid session audience")
    raise_if (not (matches_relay_id relay_id)) (transport "invalid relay identifier")
    raise_if (not (leb 1 lifetime && leb lifetime max_session_lifetime))
        (transport "invalid session lifetime")
    ok (
        field "protocol_version" (int (pos 1)) (
          field "type" (str "relay.session-challenge") (
            field "session_id" (str session_id) (
              field "relay_id" (str relay_id) (
                field "nonce" (str (Base64.encode nonce)) (
                  field "audience" (str device) (
                    field "issued_at" (str (timestamp p now))
                      (field "expires_at" (str (timestamp p (now + seconds lifetime))) end))))))))

  -- `_validate_session_challenge`. The copy that it returns is the same document.
  unfoldable pub validate_session_challenge : Value → String → Value → ℕ → Result Fields
  unfolding check_session_lifetime
  validate_session_challenge challenge device relay_id now = do
    fs ← need (as_dict challenge) (transport "invalid relay session challenge")
    raise_if (not (same_keys fs session_challenge_fields))
        (transport "invalid relay session challenge")
    raise_if (not (is_one (get "protocol_version" fs)))
        (transport "unsupported relay session version")
    raise_if (not (is_text "relay.session-challenge" (get "type" fs)))
        (transport "invalid relay session challenge type")
    session_id ← need (as_str (get "session_id" fs)) (transport "invalid relay session identifier")
    raise_if (not (is_uuid session_id)) (transport "invalid relay session identifier")
    raise_if (not (py_eq (get "relay_id" fs) relay_id))
        (transport "relay identity does not match configuration")
    raise_if (not (is_text device (get "audience" fs)))
        (transport "relay session has the wrong audience")
    nonce ← b64decode bad_encoding (get "nonce" fs)
    raise_if (not (length nonce == 32)) (transport "invalid relay session nonce")
    issued ← parse_timestamp p bad_time (get "issued_at" fs)
    expires ← parse_timestamp p bad_time (get "expires_at" fs)
    check_session_lifetime issued expires now
    ok fs

  -- The answer of `sign_session_challenge`, without its signature.
  unfoldable pub session_auth : PublicIdentity → Fields → ℕ → Fields
  session_auth identity challenge now = field "protocol_version" (int (pos 1)) (
      field "type" (str "agent.session-auth") (
        field "challenge" (obj challenge) (
          field "device_id" (str identity.device_id) (
            field "device_public_key" (str identity.public_key)
              (field "signed_at" (str (timestamp p now)) end)))))

  unfoldable pub verify_session_auth : Value → Value → ℕ → Result Fields
  verify_session_auth response expected_challenge now = do
    fs ← need (as_dict response) (transport "invalid agent session authentication")
    raise_if (not (same_keys fs session_auth_fields))
        (transport "invalid agent session authentication")
    raise_if (not (is_one (get "protocol_version" fs)))
        (transport "unsupported agent session version")
    raise_if (not (is_text "agent.session-auth" (get "type" fs)))
        (transport "invalid agent session authentication type")
    raise_if (not (py_eq (get "challenge" fs) expected_challenge))
        (transport "agent session challenge does not match")
    public_key ← b64decode bad_encoding (get "device_public_key" fs)
    signature ← b64decode bad_encoding (get "signature" fs)
    raise_if (not (length public_key == 32) || not (length signature == 64))
        (transport "invalid agent session signature")
    raise_if (not (is_text (device_id p public_key) (get "device_id" fs)))
        (transport "invalid agent session identity")
    expected ← need (as_dict expected_challenge) (other "TypeError")
    relay_id ← need (lookup "relay_id" expected) (other "KeyError")
    challenge ← validate_session_challenge expected_challenge (device_id p public_key) relay_id now
    signed_at ← parse_timestamp p bad_time (get "signed_at" fs)
    issued ← parse_timestamp p bad_time (get "issued_at" challenge)
    expires ← parse_timestamp p bad_time (get "expires_at" challenge)
    raise_if (not (leb issued (signed_at + seconds clock_skew_seconds) && ltb signed_at expires))
        (transport "invalid agent session authentication time")
    let signed = pop "signature" fs
    raise_if (not (p.accepts_key public_key)) bad_public_key
    raise_if
        (not (p.verify public_key (signed_payload p session_signature_domain signed) signature))
        (transport "invalid agent session signature")
    ok signed
