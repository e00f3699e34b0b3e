-- ===== src/Enrollment/Challenge.antt =====
-- enrollment.py: relay challenges and the payload that a peer signs.
pub mod Facts
pub mod Accepts
use printer_hmi_remote.Prelude.{
  ℕ, ◌+◌, ◌-◌, String, Bool, not, ◌&&◌, ◌||◌, some, List, [], ◌∷◌, ◌++◌, ◌==◌, ltb, leb, str_len,
  starts_with, length, codes, Error, enrollment, Result, ok, need, raise_if, ◌>>=◌, ◌>>◌,
}
use printer_hmi_remote.Prelude.Int.{pos}
use printer_hmi_remote.Json.{
  Value, int, str, obj, Fields, end, field, get, as_dict, as_str, same_keys, is_one, is_text,
}
use printer_hmi_remote.Json.Canonical.{canonical}
use printer_hmi_remote.Codec.Base64
use printer_hmi_remote.Codec.Base64.{Bytes}
use printer_hmi_remote.Codec.Pattern.{is_uuid, matches_relay_id}
use printer_hmi_remote.Codec.Time.{seconds, timestamp, parse_timestamp}
use printer_hmi_remote.Platform.{Platform}
use printer_hmi_remote.Enrollment.Keys.{b64decode}

abbrev pub max_challenge_lifetime : ℕ
max_challenge_lifetime = 300

abbrev pub challenge_clock_skew : ℕ
challenge_clock_skew = 30

abbrev pub challenge_fields : List String
challenge_fields =
    "schema_version" ∷ "type" ∷ "challenge_id" ∷ "relay_id" ∷ "nonce" ∷ "audience" ∷ "issued_at"
    ∷ "expires_at" ∷ []

abbrev bad_time : Error
bad_time = enrollment "invalid relay challenge timestamp"

abbrev bad_encoding : Error
bad_encoding = enrollment "invalid encoded value"

-- What a document says of its time, checked against the clock.
unfoldable pub check_lifetime : ℕ → ℕ → ℕ → Result (Unit {0})
check_lifetime issued expires now = do
  raise_if (leb expires issued || ltb (seconds max_challenge_lifetime) (expires - issued))
      (enrollment "invalid relay challenge lifetime")
  raise_if (ltb (now + seconds challenge_clock_skew) issued)
      (enrollment "relay challenge is not yet valid")
  raise_if (leb expires now) (enrollment "relay challenge has expired")

module _ (p : Platform) where
  -- `_validate_relay_challenge`. The copy that it returns, by way of `json`, is the same document.
  unfoldable pub validate_relay_challenge : Value → String → ℕ → Result Fields
  unfolding check_lifetime
  validate_relay_challenge challenge device_id now = do
    fs ← need (as_dict challenge) (enrollment "invalid relay challenge")
    raise_if (not (same_keys fs challenge_fields)) (enrollment "invalid relay challenge")
    raise_if (not (is_one (get "schema_version" fs)))
        (enrollment "unsupported relay challenge version")
    raise_if (not (is_text "relay.challenge" (get "type" fs)))
        (enrollment "invalid relay challenge type")
    challenge_id ←
        need (as_str (get "challenge_id" fs)) (enrollment "invalid relay challenge identifier")
    raise_if (not (is_uuid challenge_id)) (enrollment "invalid relay challenge identifier")
    relay_id ← need (as_str (get "relay_id" fs)) (enrollment "invalid relay identifier")
    raise_if (not (matches_relay_id relay_id)) (enrollment "invalid relay identifier")
    nonce ← b64decode bad_encoding (get "nonce" fs)
    raise_if (not (length nonce == 32)) (enrollment "invalid relay challenge nonce")
    raise_if (not (is_text device_id (get "audience" fs)))
        (enrollment "relay challenge has the wrong audience")
    issued ← parse_timestamp p bad_time (get "issued_at" fs)
    expires ← parse_timestamp p bad_time (get "expires_at" fs)
    check_lifetime issued expires now
    ok fs

  -- `peer_proof_payload`
  unfoldable pub peer_proof_payload : Fields → String → String → String → Bytes
  peer_proof_payload challenge pairing_id peer_id device_id =
      (codes "PrinterHMI Remote peer enrollment proof v1" ++ (0 ∷ []))
      ++ canonical p (
          obj (
            field "schema_version" (int (pos 1)) (
              field "type" (str "peer.enrollment-proof") (
                field "pairing_id" (str pairing_id) (
                  field "peer_id" (str peer_id) (
                    field "device_id" (str device_id) (
                      field "challenge_id" (get "challenge_id" challenge) (
                        field "relay_id" (get "relay_id" challenge)
                          (field "nonce" (get "nonce" challenge) end)))))))))

  -- `create_relay_challenge`, with the fresh identifier and nonce as arguments.
  unfoldable pub create_relay_challenge : String → String → ℕ → ℕ → String → Bytes → Result Value
  create_relay_challenge device_id relay_id ttl_seconds now challenge_id nonce = do
    raise_if (not (starts_with device_id "phm_" && str_len device_id == 30))
        (enrollment "invalid challenge audience")
    raise_if (not (matches_relay_id relay_id)) (enrollment "invalid relay identifier")
    raise_if (not (leb 1 ttl_seconds && leb ttl_seconds max_challenge_lifetime))
        (enrollment "invalid relay challenge lifetime")
    ok (
        obj (
          field "schema_version" (int (pos 1)) (
            field "type" (str "relay.challenge") (
              field "challenge_id" (str challenge_id) (
                field "relay_id" (str relay_id) (
                  field "nonce" (str (Base64.encode nonce)) (
                    field "audience" (str device_id) (
                      field "issued_at" (str (timestamp p now)) (
                        field "expires_at" (str (timestamp p (now + seconds ttl_seconds)))
                          end)))))))))
