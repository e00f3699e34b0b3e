-- ===== src/Service/LocalApi.antt =====
-- api.py: `LocalAgentApi`, the agent's local interface, over the store of snapshots.
pub mod Answers
pub mod Queries
use printer_hmi_remote.Prelude.{
  ℕ, ◌+◌, ◌-◌, String, Bool, true, false, not, ◌||◌, Option, none, some, List, [], ◌∷◌, ◌==◌, ltb,
  str_eq, length, Error, other, value, local_api, Result, ok, err, need, raise_if, ◌>>=◌, ◌>>◌,
  if◌then◌else◌,
}
use printer_hmi_remote.Prelude.Int.{pos}
use printer_hmi_remote.Json.{
  Value, null, bool, int, str, arr, obj, Items, nil, cons, Fields, end, field, get, count, as_dict,
  as_str, truthy, is_one, is_text,
}
use printer_hmi_remote.Codec.Base64.{Bytes}
use printer_hmi_remote.Platform.{Platform}
use printer_hmi_remote.Receiver.Config.{count_items}
use printer_hmi_remote.Service.Store.{Store, Tick, document}

abbrev pub max_request_bytes : ℕ
max_request_bytes = 16384

-- The catalog, the version, and `round(time.monotonic() - started, 3)`.
pub record Api : Type 0 where
  pub catalog : Items
  pub version : String
  pub uptime : Value

-- `sum(1 for item in instances.values() if item.get("connected"))`
unfoldable pub connected_count : Fields → Result ℕ
connected_count end = ok 0
connected_count (field id item rest) = do
  later ← connected_count rest
  fs ← need (as_dict item) (other "AttributeError")
  ok (if truthy (get "connected" fs) then later + 1 else later)

-- `document["instances"]`
abbrev pub instances_in : Value → Fields
instances_in document = elim (as_dict document) [
  | none ↦ end
  | some fs ↦ elim (as_dict (get "instances" fs)) [ none ↦ end | some gs ↦ gs ]
]

abbrev generated_at : Value → Value
generated_at document = elim (as_dict document) [ none ↦ null | some fs ↦ get "generated_at" fs ]

unfoldable pub health : Api → Value → Result Value
health api document = do
  connected ← connected_count (instances_in document)
  ok (
      obj (
        field "agent_version" (str api.version) (
          field "uptime_seconds" api.uptime (
            field "instance_count" (int (pos (count_items api.catalog))) (
              field "telemetry_ready_count" (int (pos (count (instances_in document)))) (
                field "connected_count" (int (pos connected))
                  (field "generated_at" (generated_at document) end)))))))

abbrev pub found : Value → Result Value
found null = err (local_api "not_found" "instance was not found")
found v = ok v

-- `instance_id` of the parameters, where they are an object.
abbrev pub wanted : Value → Option String
wanted params = elim (as_dict params) [ none ↦ none | some fs ↦ as_str (get "instance_id" fs) ]

unfoldable pub instance_get : Value → Value → Result Value
instance_get params document = do
  id ← need (wanted params) (local_api "invalid_params" "instance_id is required")
  raise_if (str_eq id "") (local_api "invalid_params" "instance_id is required")
  found (get id (instances_in document))

unfoldable pub by_method : Api → Value → Value → Value → Result Value
by_method api document method params =
    if is_text "health" method
    then health api document
    else if is_text "catalog" method
    then ok (obj (field "instances" (arr api.catalog) end))
    else if is_text "snapshot" method
    then ok document
    else if is_text "instance.get" method
    then instance_get params document
    else err (local_api "method_not_found" "unknown read-only method")

-- `dispatch`, before `_result`
unfoldable pub dispatch : Api → Tick → Store → Value → Result Value
dispatch api t s request = do
  fs ← need (as_dict request) (local_api "invalid_request" "request must be an object")
  raise_if (not (is_one (get "protocol_version" fs)))
      (local_api "unsupported_version" "protocol_version must be 1")
  by_method api (document t s) (get "method" fs) (get "params" fs)

-- `_result`
abbrev pub result_document : Value → Fields
result_document result =
    field "protocol_version" (int (pos 1)) (field "ok" (bool true) (field "result" result end))

-- `_error`
abbrev pub error_document : String → String → Fields
error_document code message = field "protocol_version" (int (pos 1)) (
    field "ok" (bool false)
      (field "error" (obj (field "code" (str code) (field "message" (str message) end))) end))

-- `_require_same_user`, where the credentials of the peer may be unavailable.
unfoldable pub require_same_user : ℕ → Option ℕ → Result (Unit {0})
require_same_user own none = err (local_api "peer_unavailable" "peer credentials unavailable")
require_same_user own (some uid) =
    raise_if (not (uid == own)) (local_api "forbidden" "peer user is not authorized")

unfoldable pub ends_line : Bytes → Bool
ends_line [] = false
ends_line (b ∷ []) = b == 10
ends_line (b ∷ c ∷ bs) = ends_line (c ∷ bs)

abbrev pub invalid_json : Error
invalid_json = other "JSONDecodeError"

-- What `readline` raises of a line that, its newline apart, is longer than the limit of a stream of
-- asyncio, which is 65536 bytes.
abbrev pub overrun : Error
overrun = value "Separator is not found, and chunk exceed the limit"

abbrev pub is_overrun : Bytes → Bool
is_overrun raw = ltb 65536 (if ends_line raw then length raw - 1 else length raw)

module _ (p : Platform) where
  -- What `_handle_client` does before an exception is caught.
  unfoldable pub handle_request : Api → Tick → Store → ℕ → Option ℕ → Bytes → Result Value
  handle_request api t s own peer raw = do
    require_same_user own peer
    raise_if (is_overrun raw) overrun
    raise_if (length raw == 0) (local_api "invalid_request" "request is empty")
    raise_if (ltb max_request_bytes (length raw) || not (ends_line raw))
        (local_api "request_too_large" "request exceeds limit")
    request ← need (p.json_loads raw) invalid_json
    dispatch api t s request

  -- The response to an outcome.
  unfoldable pub response : Result Value → Fields
  response (ok result) = result_document result
  response (err (local_api code message)) = error_document code message
  response (err (other name)) =
      if str_eq name "JSONDecodeError"
      then error_document "invalid_json" "request is not valid JSON"
      else error_document "internal_error" "request failed"
  response (err e) = error_document "internal_error" "request failed"

  -- `_handle_client`: the response that is written.
  unfoldable pub handle_client : Api → Tick → Store → ℕ → Option ℕ → Bytes → Fields
  handle_client api t s own peer raw = response (handle_request api t s own peer raw)

-- `api_request`: the request of a client.
unfoldable pub request_document : String → Option Fields → Fields
request_document method params = field "protocol_version" (int (pos 1)) (
    field "method" (str method)
      (elim params [ none ↦ end | some fs ↦ field "params" (obj fs) end ]))
