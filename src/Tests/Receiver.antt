-- ===== src/Tests/Receiver.antt =====
-- relay_registry.py and relay_receiver.py: runs on concrete inputs.
use printer_hmi_remote.Prelude.{
  ◌+◌, ◌≤◌, String, ◌≡◌, refl, ◌⊎◌, ◌↔◌, true, false, none, some, [], ◌∷◌, arith, ok,
}
use printer_hmi_remote.Prelude.Int.{pos}
use printer_hmi_remote.Json
use printer_hmi_remote.Json.{
  Value, bool, int, str, arr, obj, nil, cons, Fields, end, field, get, is_one, is_text,
}
use printer_hmi_remote.Dict
use printer_hmi_remote.Dict.{Dict}
use printer_hmi_remote.Codec.Base64
use printer_hmi_remote.Codec.Pattern
use printer_hmi_remote.Codec.Time.{timestamp}
use printer_hmi_remote.Platform.{Platform}
use printer_hmi_remote.Enrollment.Keys
use printer_hmi_remote.Registry.{Registry, sessions, publish, snapshot, is_online}
use printer_hmi_remote.Registry.Laws.{snapshot-publish, is_online-publish}
use printer_hmi_remote.Transport.Config.{within, overflows}
use printer_hmi_remote.Transport.Frame.{line, ends_line}
use printer_hmi_remote.Transport.Link.{Link}
use printer_hmi_remote.Receiver.Config
use printer_hmi_remote.Receiver.Config.{ReceiverConfig, Files, IsBound, load-IsBound}
use printer_hmi_remote.Receiver.Api.{handle}
use printer_hmi_remote.Receiver.Api.Health.{handle-health}
use printer_hmi_remote.Receiver.Agent.{Moment, handle_agent}
use printer_hmi_remote.Receiver.Publication.{Publication, records-handle_agent}
use printer_hmi_remote.Receiver.Sessions.{sessions-handle_agent}
use printer_hmi_remote.Tests.Toy.{toy, zeros}
use printer_hmi_remote.Tests.Documents.{platform, uuid, device, key_text, relayed}

abbrev registry : Registry
registry = record {
  device_ids = device ∷ [];
  stale_after = 30;
  records = [];
  active_sessions = [];
  state_file = none;
}

abbrev devices : Dict String
devices = (device, key_text) ∷ []

-- An agent that says hello, authenticates and sends its telemetry.
abbrev link : Link
link = record {
  inbox = line (1 ∷ 10 ∷ []) ∷ line (2 ∷ 10 ∷ []) ∷ line (3 ∷ 10 ∷ []) ∷ [];
  writes_left = 3;
  sent = [];
}

abbrev moment : Moment
moment = record {
  challenged_at = 1;
  verified_at = 2;
  accepted_at = 3;
  published_at = 4;
  session_id = uuid;
  nonce = zeros 32;
  disk_fails = false;
}

records-handle_agent_example :
    ((handle_agent platform devices "relay" moment registry 0 link).registry.records ≡ [])
    ⊎ Publication platform devices "relay" moment link []
        (handle_agent platform devices "relay" moment registry 0 link).registry.records
records-handle_agent_example = records-handle_agent platform devices "relay" moment registry 0 link

sessions-handle_agent_example :
    sessions device (handle_agent platform devices "relay" moment registry 0 link).registry
    ≡ sessions device registry
sessions-handle_agent_example =
    sessions-handle_agent platform devices "relay" moment registry 0 link device

published : (publish platform device 1 relayed 4 false registry).0 ≡ ok tt
unfolding publish Json.member
published = refl

snapshot-publish_example :
    snapshot device (publish platform device 1 relayed 4 false registry).1
    ≡ some (
        field "device_id" (str device) (
          field "sequence" (int (pos 1)) (
            field "received_at" (str (timestamp platform 4)) (field "snapshot" (obj relayed) end))))
snapshot-publish_example =
    snapshot-publish platform device 1 relayed 4 false device registry published

is_online-publish_example :
    (is_online platform 34 30
        (Dict.lookup device (publish platform device 1 relayed 4 false registry).1.records)
      ≡ true)
    ↔ (34 ≤ 4 + 30)
is_online-publish_example =
    is_online-publish platform device 1 relayed 4 false registry 34 published (omega arith)

abbrev health_query : Fields
health_query = field "protocol_version" (int (pos 1)) (field "method" (str "health") end)

abbrev asked : Platform
asked = toy (λ raw. some (obj health_query))

-- The device published at the time 4.
abbrev heard : Registry
heard = (publish platform device 1 relayed 4 false registry).1

line_ends : ends_line (1 ∷ 10 ∷ []) ≡ true
line_ends = refl

asks_health :
    (is_one (get "protocol_version" health_query) ≡ true)
    × (is_text "health" (get "method" health_query) ≡ true)
unfolding Json.lookup
asks_health = (refl, refl)

handle-health_example :
    handle asked heard 34 true (1 ∷ 10 ∷ [])
    ≡ field "protocol_version" (int (pos 1)) (
        field "ok" (bool true) (
          field "result"
            (obj (
              field "generated_at"
                (str (timestamp asked 34))
                (field "device_count" (int (pos 1)) (field "online_count" (int (pos 1)) end))))
            end))
unfolding publish Json.member Dict.lookup Dict.insert
handle-health_example =
    handle-health asked heard 34 (1 ∷ 10 ∷ []) health_query (refl, refl, line_ends) refl
      asks_health.0 asks_health.1

abbrev config_file : Value
config_file = obj (
    field "schema_version" (int (pos 1)) (
      field "enabled" (bool true) (
        field "relay_id" (str "relay") (
          field "listen_host" (str "127.0.0.1") (
            field "listen_port" (int (pos 8443)) (
              field "api_socket" (str "/run/api.sock") (
                field "state_file" (str "/run/state.json") (
                  field "cert_file" (str "/etc/cert.pem") (
                    field "key_file" (str "/etc/key.pem") (
                      field "stale_after" (int (pos 30)) (
                        field "devices"
                          (arr (
                            cons
                              (obj (
                                field "device_id" (str device)
                                  (field "public_key" (str key_text) end)))
                              nil))
                          end)))))))))))

abbrev files : Files
files = record { is_loopback = λ h. some true; resolve = λ s. s; is_file = λ s. true }

abbrev config : ReceiverConfig
config = record {
  enabled = true;
  relay_id = "relay";
  listen_host = "127.0.0.1";
  listen_port = pos 8443;
  api_socket = "/run/api.sock";
  state_file = "/run/state.json";
  cert_file = "/etc/cert.pem";
  key_file = "/etc/key.pem";
  stale_after = pos 30000000;
  devices = (device, key_text) ∷ [];
}

loaded : Config.load platform (some config_file) files ≡ ok config
unfolding Config.load within overflows Config.read_devices Config.read_device Config.read_path
    Config.count_items Json.lookup Json.same_keys Json.member Json.keys Pattern.matches_relay_id
    Pattern.matches_device_id Pattern.matches_public_key Pattern.device_id_of_digest Keys.device_id
    Keys.b64decode Base64.decode Base64.pick Dict.lookup Dict.insert
loaded = refl

load-IsBound_example : IsBound platform config.devices
load-IsBound_example = load-IsBound platform (some config_file) files config loaded
