-- ===== src/Enrollment/Request.antt =====
-- enrollment.py: the checks of `consume_pairing` and of `complete_relay_enrollment` on what they
-- are given, before they take the lock.
use printer_hmi_remote.Prelude.{
  String, not, ◌||◌, List, [], ◌∷◌, ◌==◌, length, Error, enrollment, Result, ok, need, raise_if,
  ◌>>=◌, ◌>>◌,
}
use printer_hmi_remote.Json.{Value, get, as_dict, as_str, same_keys, is_one, is_text}
use printer_hmi_remote.Codec.Base64.{Bytes}
use printer_hmi_remote.Codec.Pattern.{is_uuid, matches_relay_id}
use printer_hmi_remote.Platform.{Platform}
use printer_hmi_remote.Enrollment.Keys.{b64decode, bad_code}
use printer_hmi_remote.Enrollment.Signed.{normalized_or_blank}
use printer_hmi_remote.Enrollment.Store.{bad_encoding}

-- What is read from a request before the lock is taken.
pub record Request : Type 0 where
  pub challenge : Value
  pub pairing_id : String
  pub normalized_code : String
  pub peer_id : String
  pub peer_key : Bytes
  pub peer_signature : Bytes

abbrev pub request_fields : List String
request_fields =
    "schema_version" ∷ "type" ∷ "challenge" ∷ "pairing_id" ∷ "code" ∷ "peer_id" ∷ "peer_public_key"
    ∷ "peer_signature" ∷ []

abbrev bad_request : Error
bad_request = enrollment "invalid relay enrollment request"

abbrev pub bad_proof : Error
bad_proof = enrollment "invalid peer enrollment proof"

module _ (p : Platform) where
  -- The checks of `consume_pairing` on its arguments: the pairing, the peer, and the key.
  unfoldable pub read_arguments : Value → Value → Value → Result (String × String × Bytes)
  read_arguments pairing_value peer_value key_value = do
    pairing_id ← need (as_str pairing_value) bad_code
    raise_if (not (is_uuid pairing_id)) bad_code
    peer_id ← need (as_str peer_value) (enrollment "invalid peer identifier")
    raise_if (not (matches_relay_id peer_id)) (enrollment "invalid peer identifier")
    peer_key ← b64decode bad_encoding key_value
    raise_if (not (length peer_key == 32)) (enrollment "invalid peer public key")
    raise_if (not (p.accepts_key peer_key)) (enrollment "invalid peer public key")
    ok (pairing_id, peer_id, peer_key)

  unfoldable pub read_request : Value → Result Request
  read_request document = do
    fs ← need (as_dict document) bad_request
    raise_if
        (not (same_keys fs request_fields)
          || not (is_one (get "schema_version" fs))
          || not (is_text "relay.enrollment-request" (get "type" fs)))
        bad_request
    pairing_id ← need (as_str (get "pairing_id" fs)) bad_request
    raise_if (not (is_uuid pairing_id)) bad_request
    peer_id ← need (as_str (get "peer_id" fs)) (enrollment "invalid peer identifier")
    raise_if (not (matches_relay_id peer_id)) (enrollment "invalid peer identifier")
    peer_key ← b64decode bad_encoding (get "peer_public_key" fs)
    peer_signature ← b64decode bad_encoding (get "peer_signature" fs)
    raise_if (not (length peer_key == 32) || not (length peer_signature == 64)) bad_proof
    raise_if (not (p.accepts_key peer_key)) bad_proof
    ok (record {
      challenge = get "challenge" fs;
      pairing_id = pairing_id;
      normalized_code = normalized_or_blank p (get "code" fs);
      peer_id = peer_id;
      peer_key = peer_key;
      peer_signature = peer_signature;
    })
