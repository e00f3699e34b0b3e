-- ===== src/Tests/Documents.antt =====
-- The documents of one session of an agent with a relay, and a platform that reads them.
use printer_hmi_remote.Prelude.{String, true, Option, none, some, [], ◌∷◌, ◌==◌, if◌then◌else◌}
use printer_hmi_remote.Prelude.Int.{pos}
use printer_hmi_remote.Json.{Value, bool, int, str, obj, Fields, end, field}
use printer_hmi_remote.Codec.Base64.{Bytes}
use printer_hmi_remote.Platform.{Platform}
use printer_hmi_remote.Tests.Toy.{toy}

abbrev pub uuid : String
uuid = "12345678-1234-1234-1234-123456789abc"

abbrev pub device : String
device = "phm_aaaaaaaaaaaaaaaaaaaaaaaaaa"

abbrev pub key_text : String
key_text = "AAAAAAAAAAAAAAAAAAAAAAAAAAAAAAAAAAAAAAAAAAA"

abbrev pub signature_text : String
signature_text =
    "AAAAAAAAAAAAAAAAAAAAAAAAAAAAAAAAAAAAAAAAAAAAAAAAAAAAAAAAAAAAAAAAAAAAAAAAAAAAAAAAAAAAAA"

abbrev pub hello : Fields
hello =
    field "protocol_version" (int (pos 1))
      (field "type" (str "agent.hello") (field "device_id" (str device) end))

abbrev pub challenge : Fields
challenge = field "protocol_version" (int (pos 1)) (
    field "type" (str "relay.session-challenge") (
      field "session_id" (str uuid) (
        field "relay_id" (str "relay") (
          field "nonce" (str key_text) (
            field "audience" (str device)
              (field "issued_at" (str "xZ") (field "expires_at" (str "xxxxxxxxxZ") end)))))))

abbrev pub unsigned : Fields
unsigned = field "protocol_version" (int (pos 1)) (
    field "type" (str "agent.session-auth") (
      field "challenge" (obj challenge) (
        field "device_id" (str device)
          (field "device_public_key" (str key_text) (field "signed_at" (str "xxZ") end)))))

abbrev pub authentication : Fields
authentication = field "protocol_version" (int (pos 1)) (
    field "type" (str "agent.session-auth") (
      field "challenge" (obj challenge) (
        field "device_id" (str device) (
          field "device_public_key" (str key_text)
            (field "signed_at" (str "xxZ") (field "signature" (str signature_text) end))))))

-- A snapshot as the agent collects it, and as it is relayed.
abbrev pub collected : Value
collected = obj (
    field "schema_version" (int (pos 1)) (
      field "generated_at" (str "now") (
        field "instances"
          (obj (
            field "printer"
              (obj (
                field "connected" (bool true) (
                  field "address" (str "10.0.0.2") (
                    field "status"
                      (obj (field "host" (str "box") (field "heat" (int (pos 60)) end)))
                      (field "error" (str "refused by 10.0.0.2") end)))))
              end))
          end)))

abbrev pub relayed : Fields
relayed = field "schema_version" (int (pos 1)) (
    field "generated_at" (str "now") (
      field "instances"
        (obj (
          field "printer"
            (obj (
              field "connected" (bool true) (
                field "status" (obj (field "heat" (int (pos 60)) end))
                  (field "error" (str "unavailable") end))))
            end))
        end))

abbrev pub envelope : Fields
envelope = field "protocol_version" (int (pos 1)) (
    field "type" (str "agent.telemetry") (
      field "session_id" (str uuid)
        (field "sequence" (int (pos 1)) (field "snapshot" (obj relayed) end))))

-- A frame is read by its first byte.
abbrev pub frames : Bytes → Option Value
frames (b ∷ _) =
    if b == 1
    then some (obj hello)
    else if b == 2
    then some (obj authentication)
    else if b == 3
    then some (obj envelope)
    else none
frames [] = none

abbrev pub platform : Platform
platform = toy frames
