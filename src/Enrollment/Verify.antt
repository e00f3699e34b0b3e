-- ===== src/Enrollment/Verify.antt =====
-- enrollment.py: `verify_signature`, `verify_challenge_response`, `verify_enrollment_receipt`.
use printer_hmi_remote.Prelude.{
  ℕ, ◌+◌, String, not, ◌&&◌, ◌||◌, List, [], ◌∷◌, ◌==◌, ltb, leb, length, enrollment, other, Result,
  ok, need, raise_if, ◌>>=◌, ◌>>◌,
}
use printer_hmi_remote.Json.{Value, Fields, get, pop, as_dict, same_keys, is_one, is_text}
use printer_hmi_remote.Codec.Base64.{Bytes}
use printer_hmi_remote.Codec.Time.{seconds, parse_timestamp}
use printer_hmi_remote.Platform.{Platform}
use printer_hmi_remote.Enrollment.Keys.{b64decode, device_id}
use printer_hmi_remote.Enrollment.Signed.{
  challenge_signature_domain, enrollment_receipt_domain, signed_payload,
}
use printer_hmi_remote.Enrollment.Challenge.{validate_relay_challenge, challenge_clock_skew}
use printer_hmi_remote.Enrollment.Store.{bad_encoding}
use printer_hmi_remote.Enrollment.Operations.{bad_time}

abbrev pub response_fields : List String
response_fields =
    "schema_version" ∷ "type" ∷ "challenge" ∷ "device_id" ∷ "device_public_key" ∷ "signed_at"
    ∷ "signature" ∷ []

abbrev pub receipt_names : List String
receipt_names =
    "schema_version" ∷ "type" ∷ "challenge_id" ∷ "relay_id" ∷ "pairing_id" ∷ "device_id"
    ∷ "device_public_key" ∷ "peer_id" ∷ "peer_public_key" ∷ "enrolled_at" ∷ "signature" ∷ []

module _ (p : Platform) where
  unfoldable pub verify_signature : Value → Bytes → Bytes → Result (Unit {0})
  verify_signature public_key payload signature = do
    key_bytes ← b64decode bad_encoding public_key
    raise_if (not (length key_bytes == 32)) (enrollment "invalid public key")
    raise_if (not (p.verify key_bytes payload signature)) (other "InvalidSignature")

  unfoldable pub verify_challenge_response : Value → ℕ → Result Fields
  verify_challenge_response document now = do
    fs ← need (as_dict document) (enrollment "invalid agent challenge response")
    raise_if
        (not (same_keys fs response_fields)
          || not (is_one (get "schema_version" fs))
          || not (is_text "agent.challenge-response" (get "type" fs)))
        (enrollment "invalid agent challenge response")
    public_bytes ← b64decode bad_encoding (get "device_public_key" fs)
    raise_if
        (not (length public_bytes == 32)
          || not (is_text (device_id p public_bytes) (get "device_id" fs)))
        (enrollment "invalid agent challenge identity")
    challenge ← validate_relay_challenge p (get "challenge" fs) (device_id p public_bytes) now
    signed_at ← parse_timestamp p bad_time (get "signed_at" fs)
    issued ← parse_timestamp p bad_time (get "issued_at" challenge)
    expires ← parse_timestamp p bad_time (get "expires_at" challenge)
    raise_if (not (leb issued (signed_at + seconds challenge_clock_skew) && ltb signed_at expires))
        (enrollment "invalid agent challenge response time")
    signature ← b64decode bad_encoding (get "signature" fs)
    raise_if (not (length signature == 64)) (enrollment "invalid agent challenge signature")
    raise_if
        (not (
          p.verify public_bytes (signed_payload p challenge_signature_domain (pop "signature" fs))
            signature))
        (enrollment "invalid agent challenge signature")
    ok challenge

  unfoldable pub verify_enrollment_receipt : Value → Result Fields
  verify_enrollment_receipt document = do
    fs ← need (as_dict document) (enrollment "invalid enrollment receipt")
    raise_if
        (not (same_keys fs receipt_names)
          || not (is_one (get "schema_version" fs))
          || not (is_text "agent.enrollment-receipt" (get "type" fs)))
        (enrollment "invalid enrollment receipt")
    public_bytes ← b64decode bad_encoding (get "device_public_key" fs)
    raise_if
        (not (length public_bytes == 32)
          || not (is_text (device_id p public_bytes) (get "device_id" fs)))
        (enrollment "invalid enrollment receipt identity")
    signature ← b64decode bad_encoding (get "signature" fs)
    raise_if (not (length signature == 64)) (enrollment "invalid enrollment receipt signature")
    let signed = pop "signature" fs
    raise_if
        (not (p.verify public_bytes (signed_payload p enrollment_receipt_domain signed) signature))
        (enrollment "invalid enrollment receipt signature")
    ok signed
