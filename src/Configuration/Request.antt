-- ===== src/Configuration/Request.antt =====
-- relay_configuration.py: `create_enrollment_request`.
use printer_hmi_remote.Prelude.{
  ℕ, String, not, ◌&&◌, ◌||◌, Option, false, List, [], ◌∷◌, ◌==◌, leb, all, codes, drop, take,
  length, str_eq, Bool, Error, configuration, Result, ok, need, raise_if, ◌>>=◌, ◌>>◌,
}
use printer_hmi_remote.Prelude.Int.{pos}
use printer_hmi_remote.Json.{
  Value, int, str, obj, Fields, end, field, get, insert, as_dict, as_str, same_keys, is_one,
}
use printer_hmi_remote.Codec.Base64
use printer_hmi_remote.Codec.Base64.{Bytes}
use printer_hmi_remote.Codec.Pattern.{
  is_pairing_code, is_uuid, matches_device_id, matches_public_key,
}
use printer_hmi_remote.Codec.Time.{parse_timestamp}
use printer_hmi_remote.Platform.{Platform}
use printer_hmi_remote.Enrollment.Keys.{b64decode, device_id}
use printer_hmi_remote.Enrollment.Challenge.{create_relay_challenge, peer_proof_payload}
use printer_hmi_remote.Configuration.Directory.{read_json}
use printer_hmi_remote.Configuration.Load.{bad_key, text_of}

abbrev pub offer_fields : List String
offer_fields =
    "schema_version" ∷ "pairing_id" ∷ "device_id" ∷ "device_public_key" ∷ "code" ∷ "expires_at" ∷ []

abbrev bad_offer : Error
bad_offer = configuration "invalid pairing offer"

abbrev bad_expiry : Error
bad_expiry = configuration "invalid pairing offer expiry"

abbrev starts_with_dash : List ℕ → Bool
starts_with_dash [] = false
starts_with_dash (c ∷ cs) = c == b'-'

-- `PAIRING_CODE_PATTERN`: five characters, a dash, and five.
unfoldable pub matches_pairing_code : String → Bool
matches_pairing_code s =
    let cs = codes s in
    length cs == 11
    && all is_pairing_code (take 5 cs)
    && starts_with_dash (drop 5 cs)
    && all is_pairing_code (drop 6 cs)

-- An offer that passed the checks.
pub record Offer : Type 0 where
  pub pairing_id : String
  pub device_id : String
  pub public_key : String
  pub code : String

-- What is drawn and read from the clock for a request.
pub record Fresh : Type 0 where
  pub now : ℕ
  pub challenge_id : String
  pub nonce : Bytes

-- `d` of an object that is known to be one.
abbrev pub fields_of : Value → Fields
fields_of v = elim (as_dict v) [ Option.none ↦ end | Option.some fs ↦ fs ]

module _ (p : Platform) where
  unfoldable pub read_pairing_id : Fields → Result String
  read_pairing_id fs = do
    pairing_id ← need (as_str (get "pairing_id" fs)) bad_offer
    raise_if (not (is_uuid pairing_id)) bad_offer
    ok pairing_id

  -- The device's identifier, its key and the code.
  unfoldable pub read_offered_device : Fields → Result (String × String × String)
  unfolding matches_pairing_code
  read_offered_device fs = do
    key_bytes ← b64decode bad_key (get "device_public_key" fs)
    device ← need (as_str (get "device_id" fs)) bad_offer
    raise_if (not (matches_device_id device)) bad_offer
    public_key ← need (as_str (get "device_public_key" fs)) bad_offer
    raise_if (not (matches_public_key public_key) || not (length key_bytes == 32)) bad_offer
    raise_if (not (str_eq (device_id p key_bytes) device)) bad_offer
    code ← need (as_str (get "code" fs)) bad_offer
    raise_if (not (matches_pairing_code code)) bad_offer
    ok (device, public_key, code)

  unfoldable pub read_offer : Option Value → Result Offer
  read_offer read = do
    fs ← read_json read "pairing offer"
    raise_if (not (same_keys fs offer_fields) || not (is_one (get "schema_version" fs))) bad_offer
    pairing_id ← read_pairing_id fs
    (device, public_key, code) ← read_offered_device fs
    ok (record {
      pairing_id = pairing_id;
      device_id = device;
      public_key = public_key;
      code = code;
    })

  unfoldable pub check_expiry : Option Value → ℕ → Result (Unit {0})
  check_expiry read now = do
    fs ← read_json read "pairing offer"
    expires ← parse_timestamp p bad_expiry (get "expires_at" fs)
    raise_if (leb expires now) (configuration "pairing offer has expired")

  -- The challenge, and the request that the peer's key signs.
  unfoldable pub request_of : Fields → Offer → Fresh → Result (Fields × Fields)
  request_of state offer fresh = do
    challenge ←
        create_relay_challenge p offer.device_id (text_of (get "relay_id" state)) 300 fresh.now
          fresh.challenge_id fresh.nonce
    private_key ← b64decode bad_key (get "peer_private_key" state)
    let proof =
        peer_proof_payload p (fields_of challenge) offer.pairing_id (text_of (get "peer_id" state))
          offer.device_id
    ok (
      fields_of challenge,
      field "schema_version" (int (pos 1)) (
          field "type" (str "relay.enrollment-request") (
            field "challenge" challenge (
              field "pairing_id" (str offer.pairing_id) (
                field "code" (str offer.code) (
                  field "peer_id" (get "peer_id" state) (
                    field "peer_public_key" (get "peer_public_key" state) (
                      field "peer_signature" (str (Base64.encode (p.sign private_key proof)))
                        end))))))),
    )

-- The state with the challenge among the pending ones.
unfoldable pub with_pending : Fields → Fields → Offer → Fields
with_pending state challenge offer =
    insert "pending_challenges"
      (obj (
        insert (text_of (get "challenge_id" challenge))
          (obj (
            field "device_id" (str offer.device_id) (
              field "device_public_key" (str offer.public_key)
                (field "expires_at" (get "expires_at" challenge) end))))
          (fields_of (get "pending_challenges" state))))
      state
