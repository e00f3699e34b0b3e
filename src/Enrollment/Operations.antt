-- ===== src/Enrollment/Operations.antt =====
-- enrollment.py: the public methods of `EnrollmentStore`, each one step under the lock.
use printer_hmi_remote.Prelude.{
  ℕ, ◌+◌, String, ◌<>◌, Bool, true, not, ◌&&◌, Option, none, some, List, leb, Error, enrollment,
  need,
}
use printer_hmi_remote.Prelude.Int.{pos}
use printer_hmi_remote.Action.{Action, pure, lift, check, ◌>>=◌, ◌>>◌}
use printer_hmi_remote.Json.{Value, int, str, obj, Fields, end, field, get}
use printer_hmi_remote.Dict
use printer_hmi_remote.Dict.{Dict}
use printer_hmi_remote.Codec.Base64
use printer_hmi_remote.Codec.Base64.{Bytes}
use printer_hmi_remote.Codec.Pattern.{take_str, drop_str}
use printer_hmi_remote.Codec.Time.{seconds, timestamp}
use printer_hmi_remote.Platform.{Platform}
use printer_hmi_remote.Enrollment.Types.{Identity, Pairing, Peer, empty_state, Disk, Draw}
use printer_hmi_remote.Enrollment.Keys.{code_digest}
use printer_hmi_remote.Enrollment.Request.{read_arguments}
use printer_hmi_remote.Enrollment.Signed.{
  challenge_signature_domain, add_signature, normalized_or_blank,
}
use printer_hmi_remote.Enrollment.Challenge.{validate_relay_challenge}
use printer_hmi_remote.Enrollment.Store.{
  audit, write_state, load_state, generate_identity, ensure_identity, prune_expired,
  consume_pairing_locked,
}

abbrev pub min_pairing_ttl : ℕ
min_pairing_ttl = 60

abbrev pub max_pairing_ttl : ℕ
max_pairing_ttl = 1800

abbrev pub pairing_attempts : ℕ
pairing_attempts = 5

-- `_public_identity`: what is shown of an identity, without its private key.
pub record PublicIdentity : Type 0 where
  pub device_id : String
  pub public_key : String
  pub fingerprint : String
  pub generation : ℕ
  pub created_at : String

abbrev pub public_identity : Identity → PublicIdentity
public_identity i = record {
  device_id = i.device_id;
  public_key = i.public_key;
  fingerprint = i.fingerprint;
  generation = i.generation;
  created_at = i.created_at;
}

abbrev pub bad_time : Error
bad_time = enrollment "invalid relay challenge timestamp"

module _ (p : Platform) (draw : Draw) where
  unfoldable pub identity : Action Disk PublicIdentity
  identity = do (i, _) ← ensure_identity p draw; pure (public_identity i)

  unfoldable pub sign : Bytes → Action Disk Bytes
  sign payload = do (_, private_key) ← ensure_identity p draw; pure (p.sign private_key payload)

  abbrev pub new_pairing : ℕ → Pairing
  new_pairing ttl_seconds = record {
    created_at = timestamp p draw.now;
    expires_at = timestamp p (draw.now + seconds ttl_seconds);
    expires_epoch = draw.now + seconds ttl_seconds;
    salt = Base64.encode draw.salt;
    code_digest = Base64.encode (code_digest p draw.code draw.salt);
    attempts_remaining = pairing_attempts;
  }

  unfoldable pub create_pairing : ℕ → Action Disk Value
  unfolding load_state prune_expired write_state audit
  create_pairing ttl_seconds = do
    check (not (leb min_pairing_ttl ttl_seconds && leb ttl_seconds max_pairing_ttl))
        (enrollment "pairing TTL must be between 60 and 1800 seconds")
    (i, _) ← ensure_identity p draw
    loaded ← load_state p draw
    let state = prune_expired p draw loaded
    write_state p draw (record state {
      pairings = Dict.insert draw.pairing_id (new_pairing ttl_seconds) state.pairings;
    })
    audit p draw "pairing.created" "success" (
        field "pairing_id" (str draw.pairing_id)
          (field "expires_at" (str (timestamp p (draw.now + seconds ttl_seconds))) end))
    pure (
        obj (
          field "schema_version" (int (pos 1)) (
            field "pairing_id" (str draw.pairing_id) (
              field "device_id" (str i.device_id) (
                field "device_public_key" (str i.public_key) (
                  field "code" (str (take_str 5 draw.code <> ("-" <> drop_str 5 draw.code))) (
                    field "expires_at" (str (timestamp p (draw.now + seconds ttl_seconds)))
                      end)))))))

  unfoldable pub consume_with : String → String → String → Bytes → Action Disk Peer
  unfolding load_state
  consume_with pairing_id normalized_code peer_id peer_key = do
    ensure_identity p draw
    state ← load_state p draw
    (peer, _) ← consume_pairing_locked p draw state pairing_id normalized_code peer_id peer_key true
    pure peer

  unfoldable pub consume_pairing : Value → Value → Value → Value → Action Disk Peer
  consume_pairing pairing_value code peer_value key_value = do
    (pairing_id, peer_id, peer_key) ← lift (read_arguments p pairing_value peer_value key_value)
    consume_with pairing_id (normalized_or_blank p code) peer_id peer_key

  unfoldable pub sign_relay_challenge : Value → Action Disk Value
  unfolding audit
  sign_relay_challenge challenge = do
    (i, private_key) ← ensure_identity p draw
    normalized ← lift (validate_relay_challenge p challenge i.device_id draw.now)
    let response : Fields = field "schema_version" (int (pos 1)) (
        field "type" (str "agent.challenge-response") (
          field "challenge" (obj normalized) (
            field "device_id" (str i.device_id) (
              field "device_public_key" (str i.public_key)
                (field "signed_at" (str (timestamp p draw.now)) end)))))
    audit p draw "relay.challenge.signed" "success" (
        field "challenge_id" (get "challenge_id" normalized)
          (field "relay_id" (get "relay_id" normalized) end))
    pure (obj (add_signature p challenge_signature_domain private_key response))

  -- `list_peers`; a shown peer has all the fields of the stored one.
  unfoldable pub list_peers : Action Disk (List Peer)
  unfolding load_state
  list_peers = do
    ensure_identity p draw
    state ← load_state p draw
    pure (Dict.values (Dict.sorted_items state.peers))

  abbrev active_peer : Option Peer → Option Peer
  active_peer none = none
  active_peer (some peer) = elim peer.revoked_at [ none ↦ some peer | some _ ↦ none ]

  unfoldable pub revoke_peer : String → Action Disk Peer
  unfolding load_state write_state audit
  revoke_peer peer_id = do
    ensure_identity p draw
    state ← load_state p draw
    peer ←
        lift (
          need (active_peer (Dict.lookup peer_id state.peers)) (enrollment "active peer not found"))
    let revoked : Peer = record peer { revoked_at = some (timestamp p draw.now) }
    write_state p draw (record state { peers = Dict.insert peer_id revoked state.peers })
    audit p draw "peer.revoked" "success"
        (field "peer_id" (str peer_id) (field "peer_fingerprint" (str peer.fingerprint) end))
    pure revoked

  unfoldable pub rotate_identity : Bool → Action Disk PublicIdentity
  unfolding load_state write_state audit
  rotate_identity confirmed = do
    check (not confirmed) (enrollment "identity rotation requires explicit confirmation")
    (old, _) ← ensure_identity p draw
    load_state p draw
    (i, _) ← generate_identity p draw (old.generation + 1)
    write_state p draw empty_state
    audit p draw "identity.rotated" "success"
        (field "previous_device_id" (str old.device_id) (field "device_id" (str i.device_id) end))
    pure (public_identity i)
