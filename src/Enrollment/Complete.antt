-- ===== src/Enrollment/Complete.antt =====
-- enrollment.py: `complete_relay_enrollment`.
use printer_hmi_remote.Prelude.{String, false, if◌then◌else◌, enrollment}
use printer_hmi_remote.Prelude.Int.{pos}
use printer_hmi_remote.Action.{Action, pure, raise, lift, check, ◌>>=◌, ◌>>◌}
use printer_hmi_remote.Json.{Value, int, str, obj, Fields, end, field, get}
use printer_hmi_remote.Dict
use printer_hmi_remote.Codec.Base64.{Bytes}
use printer_hmi_remote.Codec.Time.{timestamp, parse_timestamp}
use printer_hmi_remote.Platform.{Platform}
use printer_hmi_remote.Enrollment.Types.{Identity, Peer, UsedChallenge, State, Disk, Draw}
use printer_hmi_remote.Enrollment.Signed.{enrollment_receipt_domain, add_signature}
use printer_hmi_remote.Enrollment.Challenge.{validate_relay_challenge, peer_proof_payload}
use printer_hmi_remote.Enrollment.Store.{
  audit, write_state, load_state, ensure_identity, prune_used_challenges, consume_pairing_locked,
}
use printer_hmi_remote.Enrollment.Operations.{bad_time}
use printer_hmi_remote.Enrollment.Request.{Request, read_request, bad_proof}

-- The text of a field that `_validate_relay_challenge` has found to be one.
abbrev pub text_of : Value → String
text_of v = elim v [ str s ↦ s | _ ↦ "" ]

module _ (p : Platform) (draw : Draw) where
  -- The receipt, without its signature.
  unfoldable pub receipt_fields : Identity → Fields → Request → Peer → Fields
  receipt_fields i challenge request peer = field "schema_version" (int (pos 1)) (
      field "type" (str "agent.enrollment-receipt") (
        field "challenge_id" (get "challenge_id" challenge) (
          field "relay_id" (get "relay_id" challenge) (
            field "pairing_id" (str request.pairing_id) (
              field "device_id" (str i.device_id) (
                field "device_public_key" (str i.public_key) (
                  field "peer_id" (str request.peer_id) (
                    field "peer_public_key" (str peer.public_key)
                      (field "enrolled_at" (str (timestamp p draw.now)) end)))))))))

  -- The signature of the peer over the challenge; a wrong one is audited.
  unfoldable pub check_proof : Identity → Fields → Request → Action Disk Unit
  unfolding audit
  check_proof i challenge request =
      if p.verify request.peer_key
        (peer_proof_payload p challenge request.pairing_id request.peer_id i.device_id)
        request.peer_signature
      then pure tt
      else (do
        audit p draw "relay.enrollment.completed" "rejected" (
            field "challenge_id" (get "challenge_id" challenge) (
              field "relay_id" (get "relay_id" challenge)
                (field "peer_id" (str request.peer_id) end)))
        raise bad_proof)

  -- The challenge is recorded as used, the state written and audited, the receipt signed.
  unfoldable pub record_enrollment :
      Identity → Bytes → Fields → String → Request → Peer × State → Action Disk Value
  unfolding write_state audit
  record_enrollment i private_key challenge challenge_id request (peer, state) = do
    expires ← lift (parse_timestamp p bad_time (get "expires_at" challenge))
    let used : UsedChallenge = record {
      relay_id = text_of (get "relay_id" challenge);
      expires_epoch = expires;
      used_at = timestamp p draw.now;
    }
    write_state p draw
        (record state { used_challenges = Dict.insert challenge_id used state.used_challenges })
    audit p draw "pairing.consumed" "success" (
        field "pairing_id" (str request.pairing_id) (
          field "peer_id" (str request.peer_id)
            (field "peer_fingerprint" (str peer.fingerprint) end)))
    audit p draw "relay.enrollment.completed" "success" (
        field "challenge_id" (str challenge_id) (
          field "relay_id" (get "relay_id" challenge) (
            field "pairing_id" (str request.pairing_id) (
              field "peer_id" (str request.peer_id)
                (field "peer_fingerprint" (str peer.fingerprint) end)))))
    pure (
        obj (
          add_signature p enrollment_receipt_domain private_key
            (receipt_fields i challenge request peer)))

  -- From the point where the state, pruned, is in memory.
  unfoldable pub enroll_with :
      Identity → Bytes → Fields → String → Request → State → Action Disk Value
  enroll_with i private_key challenge challenge_id request state = do
    check (Dict.contains challenge_id state.used_challenges)
        (enrollment "relay challenge has already been used")
    check_proof i challenge request
    enrolled ←
        consume_pairing_locked p draw state request.pairing_id request.normalized_code
          request.peer_id request.peer_key false
    record_enrollment i private_key challenge challenge_id request enrolled

  -- With the identity, and its private key, at hand.
  unfoldable pub complete_as : Request → Identity × Bytes → Action Disk Value
  unfolding load_state
  complete_as request (i, private_key) = do
    challenge ← lift (validate_relay_challenge p request.challenge i.device_id draw.now)
    loaded ← load_state p draw
    enroll_with i private_key challenge (text_of (get "challenge_id" challenge)) request
        (prune_used_challenges p draw loaded)

  unfoldable pub complete_relay_enrollment : Value → Action Disk Value
  complete_relay_enrollment document = do
    request ← lift (read_request p document)
    owner ← ensure_identity p draw
    complete_as request owner
