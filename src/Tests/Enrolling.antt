-- ===== src/Tests/Enrolling.antt =====
-- The manager of a relay's directory: receipts, requests and the first configuration.
use printer_hmi_remote.Prelude.{
  arith, configuration, ◌≡◌, refl, true, false, none, some, [], ◌∷◌, ok, err,
}
use printer_hmi_remote.Prelude.Int.{pos}
use printer_hmi_remote.Json.{
  Value, bool, int, str, arr, obj, Items, nil, cons, Fields, end, field, lookup, insert, pop,
  same_keys, keys, member, py_eq, count, truthy,
}
use printer_hmi_remote.Dict
use printer_hmi_remote.Json
use printer_hmi_remote.Codec.Pattern
use printer_hmi_remote.Enrollment.Keys
use printer_hmi_remote.Receiver.Config
use printer_hmi_remote.Receiver.Config.{ReceiverConfig}
use printer_hmi_remote.Transport.Config.{within, overflows}
use printer_hmi_remote.Configuration.Manage.{
  add_receipt, store_device, enroll_device, status_document,
}
use printer_hmi_remote.Codec.Base64
use printer_hmi_remote.Tests.Documents.{platform, frames, uuid, device, key_text, signature_text}
use printer_hmi_remote.Configuration.Directory.{Directory, write, read_json}
use printer_hmi_remote.Configuration.Save.{save_config}
use printer_hmi_remote.Configuration.Load.{
  check_config, load_state, load_config, parse_config, check_identity,
}
use printer_hmi_remote.Json.Laws.{IsJson}
use printer_hmi_remote.Enrollment.Types.{Identity, Draw, Disk}
use printer_hmi_remote.Enrollment.Verify.{verify_enrollment_receipt}
use printer_hmi_remote.Enrollment.Challenge.{create_relay_challenge}
use printer_hmi_remote.Configuration.Receipt.{
  read_receipt, read_verified, check_pending, get_hashed, index, find_device, append_item,
  sort_items, without_pending,
}
use printer_hmi_remote.Configuration.Once.{add_receipt-once}
use printer_hmi_remote.Configuration.Request.{
  Offer, Fresh, read_offer, read_pairing_id, read_offered_device, matches_pairing_code, request_of,
}
use printer_hmi_remote.Configuration.Accepted.{IsAccepted, IsTimely, request_of-IsAccepted}
use printer_hmi_remote.Configuration.Initialize.{
  Generated, initialize, is_blank, read_identifiers, initial_state, initial_config,
}
use printer_hmi_remote.Configuration.Fresh.{initialize-returns}
use printer_hmi_remote.Tests.Toy.{zeros, zeros-IsBytes, toy-IsSound}
use printer_hmi_remote.Tests.Configuration.{world, state, directory}

abbrev receipt : Fields
receipt = field "schema_version" (int (pos 1)) (
    field "type" (str "agent.enrollment-receipt") (
      field "challenge_id" (str "c") (
        field "relay_id" (str "relay") (
          field "pairing_id" (str uuid) (
            field "device_id" (str device) (
              field "device_public_key" (str key_text) (
                field "peer_id" (str "peer") (
                  field "peer_public_key" (str key_text) (
                    field "enrolled_at" (str "xZ")
                      (field "signature" (str signature_text) end))))))))))

abbrev added : Value
added = obj (
    field "device_id" (str device)
      (field "device_count" (int (pos 1)) (field "already_enrolled" (bool false) end)))

addition : (add_receipt platform world (some (obj receipt)) (directory nil)).0 ≡ ok added
unfolding add_receipt enroll_device store_device load_config save_config write Json.insert
    Json.py_eq Json.eq_items Json.eq_fields Json.pop Json.count read_receipt read_verified
    check_pending get_hashed index find_device append_item sort_items verify_enrollment_receipt
    without_pending check_config parse_config load_state check_identity read_json Config.load
    Config.read_devices Config.read_device Config.read_path Config.count_items Json.lookup
    Json.same_keys Json.member Json.keys Keys.device_id Pattern.device_id_of_digest Pattern.base32
    Pattern.take_str Pattern.matches_relay_id Pattern.matches_device_id Pattern.matches_public_key
    within overflows Keys.b64decode Keys.bytes_eq Base64.decode Base64.pick Dict.lookup Dict.insert
addition = refl

state-IsJson : IsJson (obj state)
unfolding IsJson Json.lookup
state-IsJson = (
  refl,
  tt,
  (
    refl,
    tt,
    (
      refl,
      tt,
      (refl, tt, (refl, tt, (refl, tt, (refl, (refl, (refl, tt, (refl, tt, tt)), tt), tt)))),
    ),
  ),
)

add_receipt-once_example :
    (add_receipt platform world
      (some (obj receipt))
      (add_receipt platform world (some (obj receipt)) (directory nil)).1).0
    ≡ err (configuration "enrollment receipt does not match a pending challenge")
add_receipt-once_example =
    add_receipt-once platform world (some (obj receipt)) (directory nil) (obj state) added refl
      state-IsJson addition

abbrev offer : Fields
offer = field "schema_version" (int (pos 1)) (
    field "pairing_id" (str uuid) (
      field "device_id" (str device) (
        field "device_public_key" (str key_text)
          (field "code" (str "ABCDE-FGHJK") (field "expires_at" (str "xxxZ") end)))))

abbrev read : Offer
read = record { pairing_id = uuid; device_id = device; public_key = key_text; code = "ABCDE-FGHJK" }

offered : read_offer platform (some (obj offer)) ≡ ok read
unfolding read_offer read_pairing_id read_offered_device matches_pairing_code Pattern.is_uuid
    check_config parse_config load_state check_identity read_json Config.load Config.read_devices
    Config.read_device Config.read_path Config.count_items Json.lookup Json.same_keys Json.member
    Json.keys Keys.device_id Pattern.device_id_of_digest Pattern.base32 Pattern.take_str
    Pattern.matches_relay_id Pattern.matches_device_id Pattern.matches_public_key within overflows
    Keys.b64decode Keys.bytes_eq Base64.decode Base64.pick Dict.lookup Dict.insert
offered = refl

abbrev fresh : Fresh
fresh = record { now = 1; challenge_id = uuid; nonce = zeros 32 }

-- The challenge and the request for the offer.
abbrev made : Fields × Fields
made = elim (request_of platform state read fresh) [ ok pair ↦ pair | err e ↦ (end, end) ]

requested : request_of platform state read fresh ≡ ok made
unfolding request_of create_relay_challenge check_config parse_config load_state check_identity
    read_json Config.load Config.read_devices Config.read_device Config.read_path Config.count_items
    Json.lookup Json.same_keys Json.member Json.keys Keys.device_id Pattern.device_id_of_digest
    Pattern.base32 Pattern.take_str Pattern.matches_relay_id Pattern.matches_device_id
    Pattern.matches_public_key within overflows Keys.b64decode Keys.bytes_eq Base64.decode
    Base64.pick Dict.lookup Dict.insert
requested = refl

loaded_state : load_state platform (some (obj state)) ≡ ok state
unfolding check_config parse_config load_state check_identity read_json Config.load
    Config.read_devices Config.read_device Config.read_path Config.count_items Json.lookup
    Json.same_keys Json.member Json.keys Keys.device_id Pattern.device_id_of_digest Pattern.base32
    Pattern.take_str Pattern.matches_relay_id Pattern.matches_device_id Pattern.matches_public_key
    within overflows Keys.b64decode Keys.bytes_eq Base64.decode Base64.pick Dict.lookup Dict.insert
loaded_state = refl

abbrev draw : Draw
draw = record {
  now = 2;
  private_key = zeros 32;
  pairing_id = uuid;
  code = "ABCDEFGHJK";
  salt = zeros 3;
  junk = 1 ∷ [];
}

abbrev disk : Disk
disk = record { identity = none; state = none; audit = [] }

abbrev owner : Identity
owner = record {
  device_id = device;
  public_key = key_text;
  private_key = key_text;
  fingerprint = "";
  generation = 1;
  created_at = "xZ";
}

fresh-IsTimely : IsTimely fresh 2
unfolding Pattern.is_uuid
fresh-IsTimely = (refl, zeros-IsBytes 32, refl, omega arith, omega arith, omega arith)

request_of-IsAccepted_example : IsAccepted platform draw owner made.0 made.1 disk
request_of-IsAccepted_example =
    request_of-IsAccepted platform (toy-IsSound frames) (some (obj state)) (some (obj offer)) state
      read fresh made.0 made.1 draw owner disk loaded_state offered requested (λ k. refl) refl
      fresh-IsTimely

abbrev generated : Generated
generated = record {
  now = 1;
  peer_private = zeros 32;
  ca = 1 ∷ [];
  ca_key = 2 ∷ [];
  cert = 3 ∷ [];
  key = 4 ∷ [];
}

abbrev empty : Directory
empty = record {
  state = none;
  config = none;
  pems = [];
  others = false;
  outputs = [];
  writes_left = 6;
}

empty-is_blank : is_blank empty ≡ true
unfolding is_blank
empty-is_blank = refl

identified :
    read_identifiers (str "relay") (str "peer") (int (pos 8443)) ≡ ok ("relay", "peer", pos 8443)
unfolding read_identifiers check_config parse_config load_state check_identity read_json Config.load
    Config.read_devices Config.read_device Config.read_path Config.count_items Json.lookup
    Json.same_keys Json.member Json.keys Keys.device_id Pattern.device_id_of_digest Pattern.base32
    Pattern.take_str Pattern.matches_relay_id Pattern.matches_device_id Pattern.matches_public_key
    within overflows Keys.b64decode Keys.bytes_eq Base64.decode Base64.pick Dict.lookup Dict.insert
identified = refl

initialize-returns_example :
    (initialize platform world generated (str "relay") (str "peer") (int (pos 8443)) empty).0
    ≡ ok (
        status_document platform world
          (initial_state platform generated "relay" "peer")
          (initial_config "relay" (pos 8443)))
initialize-returns_example =
    initialize-returns platform world generated (toy-IsSound frames) "relay" "peer" (pos 8443) empty
      empty-is_blank (omega arith) identified (zeros-IsBytes 32) refl refl refl refl
