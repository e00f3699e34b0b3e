-- ===== src/Tests/Enrollment.antt =====
-- enrollment.py: one relay enrollment, run on concrete documents.
use printer_hmi_remote.Prelude.{
  String, ◌≡◌, ◌≢◌, refl, true, none, some, [], ◌∷◌, arith, Result, ok, err,
}
use printer_hmi_remote.Prelude.Int.{pos}
use printer_hmi_remote.Json.{Value, null, int, str, obj, Fields, end, field}
use printer_hmi_remote.Codec.Base64.{Bytes}
use printer_hmi_remote.Platform.{Platform}
use printer_hmi_remote.Enrollment.Types.{Identity, Pairing, Peer, State, Disk, Draw}
use printer_hmi_remote.Enrollment.Keys.{bad_code}
use printer_hmi_remote.Enrollment.Store.{ensure_identity, consume_pairing_locked}
use printer_hmi_remote.Enrollment.Operations.{consume_pairing, create_pairing}
use printer_hmi_remote.Enrollment.Frames.{state_of}
use printer_hmi_remote.Enrollment.Redeem.{new_peer, create_pairing-enrolls}
use printer_hmi_remote.Enrollment.Complete.{complete_relay_enrollment}
use printer_hmi_remote.Enrollment.Replay.{show_identity, run, no_replay}
use printer_hmi_remote.Enrollment.Receipts.{
  IsReceipt, IsOwn, complete_relay_enrollment-IsReceipt, ensure_identity-IsOwn,
}
use printer_hmi_remote.Enrollment.Pairings.{
  pairing_of, consume_pairing-once, consume_pairing_locked-spends,
}
use printer_hmi_remote.Enrollment.Complete
use printer_hmi_remote.Enrollment.Store
use printer_hmi_remote.Enrollment.Request
use printer_hmi_remote.Enrollment.Challenge
use printer_hmi_remote.Enrollment.Keys
use printer_hmi_remote.Enrollment.Signed
use printer_hmi_remote.Enrollment.Operations
use printer_hmi_remote.Codec.Time
use printer_hmi_remote.Codec.Pattern
use printer_hmi_remote.Codec.Base64
use printer_hmi_remote.Json
use printer_hmi_remote.Dict
use printer_hmi_remote.Tests.Toy.{toy, toy-IsSound, zeros, zeros-IsBytes}

abbrev platform : Platform
platform = toy (λ raw. none)

abbrev uuid : String
uuid = "12345678-1234-1234-1234-123456789abc"

abbrev key_text : String
key_text = "AAAAAAAAAAAAAAAAAAAAAAAAAAAAAAAAAAAAAAAAAAA"

abbrev signature_text : String
signature_text =
    "AAAAAAAAAAAAAAAAAAAAAAAAAAAAAAAAAAAAAAAAAAAAAAAAAAAAAAAAAAAAAAAAAAAAAAAAAAAAAAAAAAAAAA"

abbrev draw : Draw
draw = record {
  now = 2;
  private_key = zeros 32;
  pairing_id = uuid;
  code = "ABCDEFGHJK";
  salt = zeros 3;
  junk = 1 ∷ [];
}

abbrev pairing : Pairing
pairing = record {
  created_at = "Z";
  expires_at = "xxxxxxxxxZ";
  expires_epoch = 9;
  salt = "AAAA";
  code_digest = key_text;
  attempts_remaining = 5;
}

abbrev disk : Disk
disk = record {
  identity = none;
  state = some (record { pairings = (uuid, pairing) ∷ []; peers = []; used_challenges = [] });
  audit = [];
}

abbrev challenge : Value
challenge = obj (
    field "schema_version" (int (pos 1)) (
      field "type" (str "relay.challenge") (
        field "challenge_id" (str uuid) (
          field "relay_id" (str "relay") (
            field "nonce" (str key_text) (
              field "audience" (str "phm_aaaaaaaaaaaaaaaaaaaaaaaaaa")
                (field "issued_at" (str "xZ") (field "expires_at" (str "xxxxxxxxxZ") end))))))))

abbrev request : Value
request = obj (
    field "schema_version" (int (pos 1)) (
      field "type" (str "relay.enrollment-request") (
        field "challenge" challenge (
          field "pairing_id" (str uuid) (
            field "code" (str "ABCDE-FGHJK") (
              field "peer_id" (str "peer") (
                field "peer_public_key" (str key_text)
                  (field "peer_signature" (str signature_text) end))))))))

abbrev value_of : Result Value → Value
value_of (ok v) = v
value_of (err e) = null

completed :
    (complete_relay_enrollment platform draw request disk).0
    ≡ ok (value_of (complete_relay_enrollment platform draw request disk).0)
unfolding complete_relay_enrollment consume_pairing_locked ensure_identity Dict.lookup Dict.erase
    Dict.insert Dict.keep Complete.complete_as Complete.enroll_with Complete.record_enrollment
    Complete.check_proof Store.prune_used_challenges Store.check_code Store.reject Store.enroll_peer
    Store.audit Store.write_state Store.load_state Store.generate_identity Request.read_request
    Request.read_arguments Challenge.validate_relay_challenge Challenge.check_lifetime
    Keys.b64decode Keys.bytes_eq Keys.device_id Keys.fingerprint Keys.normalize_code
    Keys.code_digest Keys.without_separators Signed.normalized_or_blank Operations.consume_with
    Time.parse_timestamp Time.strip_z Time.timestamp Pattern.is_uuid Pattern.matches_relay_id
    Pattern.device_id_of_digest Base64.encode Base64.decode Json.lookup Json.same_keys Json.member
    Json.keys
completed = refl

no_replay_example :
    (complete_relay_enrollment platform draw request (
      run platform
        ((show_identity, draw) ∷ [])
        (complete_relay_enrollment platform draw request disk).1)).0
    ≢ ok null
no_replay_example =
    no_replay platform request request draw draw ((show_identity, draw) ∷ []) disk completed refl
      (omega arith, tt)

complete_relay_enrollment-IsReceipt_example :
    IsReceipt platform (value_of (complete_relay_enrollment platform draw request disk).0)
complete_relay_enrollment-IsReceipt_example =
    complete_relay_enrollment-IsReceipt platform (toy-IsSound (λ raw. none)) draw request disk
      (value_of (complete_relay_enrollment platform draw request disk).0) completed

abbrev owner : Identity
owner = record {
  device_id = "phm_aaaaaaaaaaaaaaaaaaaaaaaaaa";
  public_key = key_text;
  private_key = key_text;
  fingerprint = "00:00:00:00:00:00:00:00:00:00:00:00:00:00:00:00";
  generation = 1;
  created_at = "xxZ";
}

owned : (ensure_identity platform draw disk).0 ≡ ok (owner, zeros 32)
unfolding complete_relay_enrollment consume_pairing_locked ensure_identity Dict.lookup Dict.erase
    Dict.insert Dict.keep Complete.complete_as Complete.enroll_with Complete.record_enrollment
    Complete.check_proof Store.prune_used_challenges Store.check_code Store.reject Store.enroll_peer
    Store.audit Store.write_state Store.load_state Store.generate_identity Request.read_request
    Request.read_arguments Challenge.validate_relay_challenge Challenge.check_lifetime
    Keys.b64decode Keys.bytes_eq Keys.device_id Keys.fingerprint Keys.normalize_code
    Keys.code_digest Keys.without_separators Signed.normalized_or_blank Operations.consume_with
    Time.parse_timestamp Time.strip_z Time.timestamp Pattern.is_uuid Pattern.matches_relay_id
    Pattern.device_id_of_digest Base64.encode Base64.decode Json.lookup Json.same_keys Json.member
    Json.keys
owned = refl

ensure_identity-IsOwn_example : IsOwn platform owner (zeros 32)
ensure_identity-IsOwn_example = ensure_identity-IsOwn platform draw disk owner (zeros 32) owned

abbrev enrolled : Peer
enrolled = record {
  peer_id = "peer";
  public_key = key_text;
  fingerprint = "00:00:00:00:00:00:00:00:00:00:00:00:00:00:00:00";
  paired_at = "xxZ";
  revoked_at = none;
}

consumed :
    (consume_pairing platform draw
      (str uuid)
      (str "ABCDE-FGHJK")
      (str "peer")
      (str key_text)
      disk).0
    ≡ ok enrolled
unfolding consume_pairing consume_pairing_locked ensure_identity Dict.lookup Dict.erase Dict.insert
    Dict.keep Complete.complete_as Complete.enroll_with Complete.record_enrollment
    Complete.check_proof Store.prune_used_challenges Store.check_code Store.reject Store.enroll_peer
    Store.audit Store.write_state Store.load_state Store.generate_identity Request.read_request
    Request.read_arguments Challenge.validate_relay_challenge Challenge.check_lifetime
    Keys.b64decode Keys.bytes_eq Keys.device_id Keys.fingerprint Keys.normalize_code
    Keys.code_digest Keys.without_separators Signed.normalized_or_blank Operations.consume_with
    Time.parse_timestamp Time.strip_z Time.timestamp Pattern.is_uuid Pattern.matches_relay_id
    Pattern.device_id_of_digest Base64.encode Base64.decode Json.lookup Json.same_keys Json.member
    Json.keys
consumed = refl

consume_pairing-once_example :
    (consume_pairing platform draw
      (str uuid)
      (str "ABCDE-FGHJK")
      (str "other")
      (str key_text)
      (consume_pairing platform draw
        (str uuid)
        (str "ABCDE-FGHJK")
        (str "peer")
        (str key_text)
        disk).1).0
    ≢ ok enrolled
consume_pairing-once_example =
    consume_pairing-once platform draw draw (str uuid) (str "ABCDE-FGHJK") (str "peer")
      (str key_text) (str "ABCDE-FGHJK") (str "other") (str key_text) disk enrolled enrolled
      consumed

abbrev state : State
state = record { pairings = (uuid, pairing) ∷ []; peers = []; used_challenges = [] }

consume_pairing_locked-spends_example :
    ((consume_pairing_locked platform draw state uuid "" "peer" (zeros 32) true disk).0
      ≡ err bad_code)
    × (pairing_of uuid
          (consume_pairing_locked platform draw state uuid "" "peer" (zeros 32) true disk).1
        ≡ some (record pairing { attempts_remaining = 4 }))
unfolding Dict.lookup Keys.b64decode Base64.decode Keys.bytes_eq
consume_pairing_locked-spends_example =
    consume_pairing_locked-spends platform draw state uuid "" "peer" (zeros 32) disk pairing
      (zeros 3) (zeros 32) refl (omega arith) refl refl refl

offered :
    (create_pairing platform draw 60 disk).0
    ≡ ok (value_of (create_pairing platform draw 60 disk).0)
unfolding create_pairing ensure_identity
offered = refl

create_pairing-enrolls_example :
    Dict.lookup "peer"
      (state_of
        (consume_pairing_locked platform draw
          (state_of (create_pairing platform draw 60 disk).1.state)
          uuid
          "ABCDEFGHJK"
          "peer"
          (zeros 32)
          true
          (create_pairing platform draw 60 disk).1).1.state).peers
    ≡ some (new_peer platform draw "peer" (zeros 32))
unfolding create_pairing ensure_identity Dict.lookup Keys.code_digest
create_pairing-enrolls_example =
    create_pairing-enrolls platform draw draw 60 "peer" (zeros 32) disk
      (value_of (create_pairing platform draw 60 disk).0) offered (omega arith) refl refl
      (zeros-IsBytes 3) (zeros-IsBytes 32)
