-- ===== src/Tests/Configuration.antt =====
-- The manager of a relay's directory on a small directory.
use printer_hmi_remote.Prelude.{
  List, configuration, ◌≡◌, refl, true, false, some, [], ◌∷◌, ok, err, Error,
}
use printer_hmi_remote.Prelude.Int.{pos}
use printer_hmi_remote.Json.{
  Value, bool, int, str, arr, obj, Items, nil, cons, Fields, end, field, lookup, insert, pop,
  same_keys, keys, member, py_eq, count, truthy,
}
use printer_hmi_remote.Dict
use printer_hmi_remote.Json
use printer_hmi_remote.Codec.Pattern
use printer_hmi_remote.Enrollment.Keys
use printer_hmi_remote.Receiver.Config
use printer_hmi_remote.Receiver.Config.{ReceiverConfig}
use printer_hmi_remote.Transport.Config.{within, overflows}
use printer_hmi_remote.Configuration.Invariant.{IsConsistent}
use printer_hmi_remote.Configuration.Runs.{run-IsConsistent}
use printer_hmi_remote.Configuration.Command.{Command, enable, disable, remove, show, run}
use printer_hmi_remote.Configuration.Removal.{remove_device-gone}
use printer_hmi_remote.Configuration.Manage.{
  status, remove_device, remove_confirmed, without_device, status_document, device_ids,
}
use printer_hmi_remote.Codec.Base64
use printer_hmi_remote.Tests.Documents.{platform, device, key_text}
use printer_hmi_remote.Configuration.Directory.{Directory, World, write, read_json}
use printer_hmi_remote.Configuration.Save.{save_config, save_config-atomic, checked}
use printer_hmi_remote.Configuration.Load.{
  check_config, load_state, load_config, parse_config, check_identity,
}

abbrev pub world : World
world = record {
  files = record {
    is_loopback = λ host. some true;
    resolve = λ path. path;
    is_file = λ path. true;
  };
  path = λ name. name;
  locate = λ path. path;
  parent = λ path. "/";
  is_dir = λ path. true;
  exists = λ path. false;
}

abbrev pub pending : Fields
pending =
    field "c" (obj (field "device_id" (str device) (field "device_public_key" (str key_text) end)))
      end

abbrev pub state : Fields
state = field "schema_version" (int (pos 1)) (
    field "relay_id" (str "relay") (
      field "peer_id" (str "peer") (
        field "peer_public_key" (str key_text) (
          field "peer_private_key" (str key_text)
            (field "created_at" (str "xZ") (field "pending_challenges" (obj pending) end))))))

abbrev enrolled : Items
enrolled = cons (obj (field "device_id" (str device) (field "public_key" (str key_text) end))) nil

abbrev pub config : Items → Fields
config devices = field "schema_version" (int (pos 1)) (
    field "enabled" (bool false) (
      field "relay_id" (str "relay") (
        field "listen_host" (str "127.0.0.1") (
          field "listen_port" (int (pos 8443)) (
            field "api_socket" (str "runtime/receiver.sock") (
              field "state_file" (str "runtime/latest.json") (
                field "cert_file" (str "relay-cert.pem") (
                  field "key_file" (str "relay-key.pem")
                    (field "stale_after" (int (pos 30)) (field "devices" (arr devices) end))))))))))

abbrev pub directory : Items → Directory
directory devices = record {
  state = some (obj state);
  config = some (obj (config devices));
  pems = [];
  others = false;
  outputs = [];
  writes_left = 5;
}

-- The configuration of a relay with one device.
abbrev loaded : ReceiverConfig
loaded = record {
  enabled = false;
  relay_id = "relay";
  listen_host = "127.0.0.1";
  listen_port = pos 8443;
  api_socket = "runtime/receiver.sock";
  state_file = "runtime/latest.json";
  cert_file = "relay-cert.pem";
  key_file = "relay-key.pem";
  stale_after = pos 30000000;
  devices = (device, key_text) ∷ [];
}

directory-IsConsistent : IsConsistent platform world (directory enrolled)
unfolding check_config parse_config load_state check_identity read_json Config.load
    Config.read_devices Config.read_device Config.read_path Config.count_items Json.lookup
    Json.same_keys Json.member Json.keys Keys.device_id Pattern.device_id_of_digest Pattern.base32
    Pattern.take_str Pattern.matches_relay_id Pattern.matches_device_id Pattern.matches_public_key
    within overflows Keys.b64decode Keys.bytes_eq Base64.decode Base64.pick Dict.lookup Dict.insert
directory-IsConsistent = (loaded, refl)

save_config-atomic_example :
    let (r, d) = save_config platform world (config nil) (directory enrolled) in
    (r ≡ ok tt
      → (d.config ≡ some (obj (config nil)))
        × ((c : ReceiverConfig) × (checked platform world d ≡ ok c)))
    × ((e : Error) → r ≡ err e → d.config ≡ some (obj (config enrolled)))
    × (d.state ≡ some (obj state))
    × (d.pems ≡ [])
save_config-atomic_example = save_config-atomic platform world (config nil) (directory enrolled)

abbrev commands : List Command
commands = enable true ∷ remove (some device) true ∷ disable ∷ remove (some device) true ∷ show ∷ []

run-IsConsistent_example :
    IsConsistent platform world (run platform world commands (directory enrolled))
run-IsConsistent_example =
    run-IsConsistent platform world commands (directory enrolled) directory-IsConsistent

-- The status document after the removal.
abbrev removed : Value
removed = status_document platform world state (config nil)

removal : (remove_device platform world device true (directory enrolled)).0 ≡ ok removed
unfolding remove_device remove_confirmed without_device load_config status status_document
    device_ids save_config write Json.insert Json.truthy Json.count check_config parse_config
    load_state check_identity read_json Config.load Config.read_devices Config.read_device
    Config.read_path Config.count_items Json.lookup Json.same_keys Json.member Json.keys
    Keys.device_id Pattern.device_id_of_digest Pattern.base32 Pattern.take_str
    Pattern.matches_relay_id Pattern.matches_device_id Pattern.matches_public_key within overflows
    Keys.b64decode Keys.bytes_eq Base64.decode Base64.pick Dict.lookup Dict.insert
removal = refl

remove_device-gone_example :
    (remove_device platform world device true
      (remove_device platform world device true (directory enrolled)).1).0
    ≡ err (configuration "enrolled device was not found")
remove_device-gone_example =
    remove_device-gone platform world device true (directory enrolled) removed removal
