-- ===== src/Tests/Transport.antt =====
-- relay_transport.py and the codecs: runs on concrete inputs.
use printer_hmi_remote.Prelude.{
  ℕ, zero, suc, ◌==◌, if◌then◌else◌, String, ◌+◌, ◌≤◌, ◌<◌, ◌≡◌, refl, true, some, List, [], ◌∷◌,
  arith, length, All, transport, ok, err,
}
use printer_hmi_remote.Prelude.Int.{pos}
use printer_hmi_remote.Action.{Action}
use printer_hmi_remote.Json
use printer_hmi_remote.Json.{Value, bool, int, str, obj, Fields, end, field, py_eq}
use printer_hmi_remote.Json.Laws
use printer_hmi_remote.Json.Laws.{IsJson, py_eq_refl}
use printer_hmi_remote.Json.Canonical
use printer_hmi_remote.Codec.Base64
use printer_hmi_remote.Codec.Base64.RoundTrip.{decode-encode}
use printer_hmi_remote.Codec.Pattern
use printer_hmi_remote.Codec.Time
use printer_hmi_remote.Enrollment.Keys
use printer_hmi_remote.Enrollment.Signed.{add_signature}
use printer_hmi_remote.Enrollment.Operations.{PublicIdentity}
use printer_hmi_remote.Transport.Config
use printer_hmi_remote.Transport.Config.{RelayConfig, IsValid, load-IsValid}
use printer_hmi_remote.Transport.Queue.{
  Queue, put_latest, keep_latest, items-put_latest, count-put_latest, put_latest-le-capacity,
}
use printer_hmi_remote.Transport.Retry.{retry_delays, send_with_retries, exhausted}
use printer_hmi_remote.Transport.Retry.Budget.{
  retry_delays-bounds, send_with_retries-exhausts, send_with_retries-decided, after_sends,
}
use printer_hmi_remote.Transport.Sanitize.{sanitize_snapshot}
use printer_hmi_remote.Transport.Sanitize
use printer_hmi_remote.Transport.Sanitize.Privacy.{IsSanitized, sanitize_snapshot-IsSanitized}
use printer_hmi_remote.Transport.Sanitize.Idempotent.{sanitize_snapshot_idem}
use printer_hmi_remote.Transport.Session
use printer_hmi_remote.Transport.Session.{
  session_signature_domain, session_auth, verify_session_auth,
}
use printer_hmi_remote.Transport.Session.Accepts.{
  IsSigned, verify_session_auth-IsSigned, verify_session_auth-sign,
}
use printer_hmi_remote.Tests.Toy.{toy-IsSound, zeros}
use printer_hmi_remote.Tests.Documents.{
  platform, device, key_text, challenge, unsigned, authentication, collected, relayed,
}

decode-encode_example :
    Base64.decode (Base64.encode (0 ∷ 255 ∷ 16 ∷ 7 ∷ [])) ≡ some (0 ∷ 255 ∷ 16 ∷ 7 ∷ [])
decode-encode_example =
    decode-encode (0 ∷ 255 ∷ 16 ∷ 7 ∷ [])
      (omega arith, (omega arith, (omega arith, (omega arith, tt))))

challenge-IsJson : IsJson (obj challenge)
unfolding Laws.IsJson Json.lookup
challenge-IsJson = (
  refl,
  tt,
  (refl, tt, (refl, tt, (refl, tt, (refl, tt, (refl, tt, (refl, tt, (refl, tt, tt))))))),
)

py_eq_refl_example : py_eq (obj challenge) (obj challenge) ≡ true
py_eq_refl_example = py_eq_refl (obj challenge) challenge-IsJson

let_through : sanitize_snapshot platform collected ≡ ok relayed
unfolding sanitize_snapshot Sanitize.sanitize_instances Sanitize.sanitize_instance
    Sanitize.pick_fields Sanitize.sanitize Sanitize.is_private Json.lookup Json.member Json.truthy
    Canonical.canonical
let_through = refl

sanitize_snapshot-IsSanitized_example : IsSanitized platform collected relayed
sanitize_snapshot-IsSanitized_example =
    sanitize_snapshot-IsSanitized platform collected relayed let_through

sanitize_snapshot_idem_example : sanitize_snapshot platform (obj relayed) ≡ ok relayed
sanitize_snapshot_idem_example = sanitize_snapshot_idem platform collected relayed let_through

abbrev queue : Queue ℕ
queue = record { capacity = 2; items = 4 ∷ 5 ∷ []; dropped_count = 1 }

items-put_latest_example : (put_latest 6 queue).items ≡ keep_latest 2 (4 ∷ 5 ∷ 6 ∷ [])
items-put_latest_example = items-put_latest 6 queue (omega arith)

count-put_latest_example :
    length (put_latest 6 queue).items + (put_latest 6 queue).dropped_count
    ≡ length queue.items + queue.dropped_count + 1
count-put_latest_example = count-put_latest 6 queue

put_latest-le-capacity_example : length (put_latest 6 queue).items ≤ 2
put_latest-le-capacity_example = put_latest-le-capacity 6 queue (omega arith)

retry_delays-bounds_example :
    (delays : List ℕ) × (retry_delays (pos 3) 1000000 3000000 ≡ ok delays)
    × (length delays ≡ 3)
    × All (λ d. (0 < d) × (d ≤ 3000000)) delays
retry_delays-bounds_example =
    retry_delays-bounds 3 1000000 3000000 (omega arith) (omega arith) (omega arith)

-- A relay that is never reached; the store counts the attempts.
abbrev unreachable : Action ℕ Unit
unreachable n = (err (transport "secure relay connection failed"), n + 1)

send_with_retries-exhausts_example :
    ((send_with_retries unreachable 3 0).0 ≡ err exhausted)
    × ((send_with_retries unreachable 3 0).1 ≡ 3)
    × (length (send_with_retries unreachable 3 0).2 ≡ 2)
send_with_retries-exhausts_example =
    send_with_retries-exhausts unreachable 3 0 (omega arith) (omega arith)
      (λ t. ("secure relay connection failed", refl))

-- A relay that is reached at the second attempt.
abbrev reached_later : Action ℕ Unit
reached_later n =
    (if n == 0 then err (transport "secure relay connection failed") else ok tt, n + 1)

first_fails :
    (i : ℕ)
    → i < 1
    → (m : String) × ((reached_later (after_sends reached_later i 0)).0 ≡ err (transport m))
first_fails zero l = ("secure relay connection failed", refl)
first_fails (suc i) l = absurd (omega (arith, l))

send_with_retries-decided_example :
    ((send_with_retries reached_later 3 0).0 ≡ ok tt)
    × ((send_with_retries reached_later 3 0).1 ≡ 2)
    × (length (send_with_retries reached_later 3 0).2 ≡ 1)
send_with_retries-decided_example =
    send_with_retries-decided reached_later 3 1 0 (ok tt) (omega arith) (omega arith) first_fails
      refl refl

abbrev config_file : Value
config_file = obj (
    field "schema_version" (int (pos 1)) (
      field "enabled" (bool true) (
        field "relay_id" (str "relay") (
          field "host" (str "relay.example") (
            field "port" (int (pos 8443)) (
              field "server_name" (str "relay.example") (
                field "ca_file" (str "ca.pem") (
                  field "queue_capacity" (int (pos 8))
                    (field "connect_timeout" (int (pos 5)) end)))))))))

abbrev config : RelayConfig
config = record {
  enabled = true;
  relay_id = "relay";
  host = "relay.example";
  port = pos 8443;
  server_name = "relay.example";
  ca_file = "ca.pem";
  queue_capacity = pos 8;
  connect_timeout = pos 5000000;
}

loaded : Config.load (some config_file) (λ s. some s) ≡ ok config
unfolding Config.load Json.lookup Json.same_keys Json.member Json.keys Pattern.matches_relay_id
    Config.is_host Config.within Config.overflows
loaded = refl

load-IsValid_example : IsValid config
load-IsValid_example = load-IsValid (some config_file) (λ s. some s) config loaded

abbrev shown : PublicIdentity
shown = record {
  device_id = device;
  public_key = key_text;
  fingerprint = "";
  generation = 1;
  created_at = "Z";
}

valid :
    Session.validate_session_challenge platform (obj challenge) device (str "relay") 2
    ≡ ok challenge
unfolding Session.validate_session_challenge Json.py_eq Json.lookup Json.same_keys Json.member
    Json.keys Pattern.is_uuid Keys.b64decode Base64.decode Time.parse_timestamp Time.strip_z
valid = refl

verified : verify_session_auth platform (obj authentication) (obj challenge) 2 ≡ ok unsigned
unfolding verify_session_auth Session.validate_session_challenge Json.lookup Json.same_keys
    Json.member Json.keys Json.pop Json.py_eq Json.count Pattern.is_uuid Pattern.device_id_of_digest
    Keys.device_id Keys.b64decode Keys.bytes_eq Base64.decode Time.parse_timestamp Time.strip_z
    Base64.pick
verified = refl

verify_session_auth-IsSigned_example : IsSigned platform authentication unsigned
verify_session_auth-IsSigned_example =
    verify_session_auth-IsSigned platform authentication (obj challenge) 2 unsigned verified

verify_session_auth-sign_example :
    verify_session_auth platform
      (obj (
        add_signature platform session_signature_domain
          (zeros 32)
          (session_auth platform shown challenge 2)))
      (obj challenge)
      2
    ≡ ok (session_auth platform shown challenge 2)
unfolding Json.lookup Keys.device_id Pattern.device_id_of_digest Base64.encode Base64.pick
    Time.timestamp
verify_session_auth-sign_example =
    verify_session_auth-sign platform (toy-IsSound _) (zeros 32) shown challenge 2 2 1 9
      (str "relay") refl refl refl refl challenge-IsJson valid refl refl (omega arith) (omega arith)
      (omega arith) (omega arith)
