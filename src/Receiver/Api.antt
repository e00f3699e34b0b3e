-- ===== src/Receiver/Api.antt =====
-- relay_receiver.py: `RelayReceiverApi`, the queries on the local socket.
pub mod Health
use printer_hmi_remote.Prelude.{
  ℕ, ◌+◌, String, Bool, true, false, not, ◌&&◌, ◌||◌, Option, none, some, List, [], ◌∷◌, ◌++◌,
  str_eq, ltb, length, if◌then◌else◌, Error, receiver, Result, ok, err, need, raise_if, ◌>>=◌, ◌>>◌,
}
use printer_hmi_remote.Prelude.Int.{pos}
use printer_hmi_remote.Json.{
  Value, null, bool, int, str, obj, Fields, end, field, get, as_dict, as_str, is_one, is_text,
  count,
}
use printer_hmi_remote.Json.Canonical.{dump}
use printer_hmi_remote.Dict
use printer_hmi_remote.Codec.Base64.{Bytes}
use printer_hmi_remote.Codec.Time.{timestamp}
use printer_hmi_remote.Platform.{Platform}
use printer_hmi_remote.Registry.{Registry, is_online, registry_document, device_documents, snapshot}
use printer_hmi_remote.Transport.Frame.{ends_line, is_empty}

abbrev pub max_api_request_bytes : ℕ
max_api_request_bytes = 16384

abbrev pub succeeded : Fields → Fields
succeeded result =
    field "protocol_version" (int (pos 1))
      (field "ok" (bool true) (field "result" (obj result) end))

abbrev pub failed : String → String → Fields
failed code message = field "protocol_version" (int (pos 1)) (
    field "ok" (bool false)
      (field "error" (obj (field "code" (str code) (field "message" (str message) end))) end))

abbrev pub rejected : Fields
rejected = failed "invalid_request" "request rejected"

abbrev online_field : Value → Bool
online_field (obj fs) = elim (get "online" fs) [ bool b ↦ b | _ ↦ false ]
online_field _ = false

-- `sum(1 for item in document["devices"].values() if item["online"])`
unfoldable pub online_count : Fields → ℕ
online_count end = 0
online_count (field k v fs) =
    let rest = online_count fs in if online_field v then rest + 1 else rest

abbrev snapshot_answer : Option Fields → Fields
snapshot_answer none = failed "not_found" "snapshot unavailable"
snapshot_answer (some found) = succeeded found

-- `params.get("device_id") if isinstance(params, dict) else None`
abbrev requested_device : Value → Value
requested_device (obj params) = get "device_id" params
requested_device _ = null

module _ (p : Platform) where
  -- `document["devices"]` is what the document was just given.
  unfoldable pub health : Registry → ℕ → Fields
  health r now =
      let devices = device_documents p r now r.device_ids in
      field "generated_at" (str (timestamp p now)) (
        field "device_count" (int (pos (count devices)))
          (field "online_count" (int (pos (online_count devices))) end))

  unfoldable pub dispatch : Registry → ℕ → Value → Result Fields
  dispatch r now request = do
    fs ← need (as_dict request) (receiver "invalid API request")
    raise_if (not (is_one (get "protocol_version" fs))) (receiver "invalid API request")
    let method = get "method" fs
    let asked = do
      id ← need (as_str (requested_device (get "params" fs))) (receiver "device_id is required")
      ok (snapshot_answer (snapshot id r))
    if is_text "health" method
        then ok (succeeded (health r now))
        else if is_text "devices" method
        then ok (succeeded (registry_document p r now))
        else if is_text "snapshot" method
        then asked
        else err (receiver "unknown API method")

  abbrev or_rejected : Result Fields → Fields
  or_rejected (ok response) = response
  or_rejected (err e) = rejected

  -- `_handle`: whatever goes wrong, the same answer. `same_user` is the check of the peer's credentials.
  unfoldable pub handle : Registry → ℕ → Bool → Bytes → Fields
  handle r now same_user raw = or_rejected do
    raise_if (not same_user) (receiver "peer is not authorized")
    raise_if (is_empty raw || ltb max_api_request_bytes (length raw) || not (ends_line raw))
        (receiver "invalid API request")
    request ← need (p.json_loads raw) (receiver "invalid API request")
    dispatch r now request
