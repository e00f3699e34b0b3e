-- ===== src/Service/Diagnostics.antt =====
-- diagnostics.py: the report on the printers, which leaves their names and paths out.
pub mod Anonymous
use printer_hmi_remote.Prelude.{
  ℕ, ◌+◌, String, ◌<>◌, Bool, true, false, not, ◌||◌, Option, none, some, List, [], ◌∷◌, ◌++◌,
  length, str_len, leb, str_eq, if◌then◌else◌, Result, ok, err, Error, ltb,
}
use printer_hmi_remote.Prelude.Int.{pos}
use printer_hmi_remote.Json.{
  Value, null, bool, int, str, arr, obj, Items, nil, cons, Fields, end, field, get, lookup, count,
  truthy, as_dict, as_str,
}
use printer_hmi_remote.Prelude.{Result, ok, err, Error, value, other}
use printer_hmi_remote.Json.{Items, nil, cons, arr}
use printer_hmi_remote.Codec.Pattern.{take_str}

-- `str(value)`, `str.format` of a number, `str.replace`, the home directory, and the five substitutions of
-- `re.sub` in a row.
pub record Texts : Type 0 where
  pub str_of : Value → String
  pub number : ℕ → String
  pub replace : String → String → String → String
  pub home : String
  pub substitute : String → String

-- A text goes before those that are no longer.
insert_longest : String → List String → List String
insert_longest s [] = s ∷ []
insert_longest s (t ∷ ts) =
    let rest = t ∷ insert_longest s ts in if leb (str_len t) (str_len s) then s ∷ t ∷ ts else rest

-- `sorted((str(item) for item in values if item), key=len, reverse=True)`
unfoldable pub longest_first : List String → List String
unfolding insert_longest
longest_first [] = []
longest_first (s ∷ ss) = insert_longest s (longest_first ss)

unfoldable pub redact : Texts → List String → String → String
redact texts [] text = text
redact texts (sensitive ∷ rest) text = redact texts rest (texts.replace text sensitive "<REDACTED>")

abbrev pub max_error_length : ℕ
max_error_length = 500

unfoldable pub sanitize_text : Texts → Value → List String → String
unfolding longest_first redact
sanitize_text texts v sensitive_values =
    let redacted = redact texts (longest_first sensitive_values) (texts.str_of v) in
    let homeless =
      if str_eq texts.home "" || str_eq texts.home "/"
      then redacted
      else texts.replace redacted texts.home "<HOME>" in
    take_str max_error_length (texts.substitute homeless)

abbrev dict_or_empty : Value → Fields
dict_or_empty v = elim (as_dict v) [ none ↦ end | some fs ↦ fs ]

-- `sanitize_text(v) if v else None`
abbrev sanitized_or_null : Texts → Value → Value
sanitized_or_null texts v = if truthy v then str (sanitize_text texts v []) else null

-- `_safe_health`
unfoldable pub safe_health : Fields → Fields
safe_health payload = field "agent_version" (get "agent_version" payload) (
    field "uptime_seconds" (get "uptime_seconds" payload) (
      field "instance_count" (get "instance_count" payload) (
        field "telemetry_ready_count" (get "telemetry_ready_count" payload) (
          field "connected_count" (get "connected_count" payload)
            (field "generated_at" (get "generated_at" payload) end)))))

-- `_device_summary`
unfoldable pub device_summary : Texts → Fields → Fields
device_summary texts instance =
    let status = dict_or_empty (get "status" instance) in
    field "connected" (bool (truthy (get "connected" instance))) (
      field "captured_at" (get "captured_at" instance) (
        field "error" (sanitized_or_null texts (get "error" instance)) (
          field "print_state" (get "state" (dict_or_empty (get "print" status))) (
            field "temperature_device_count"
              (int (pos (count (dict_or_empty (get "temperatures" status)))))
              (field "fan_device_count" (int (pos (count (dict_or_empty (get "fans" status)))))
                end)))))

abbrev pub alias_of : Texts → ℕ → String
alias_of texts index = "printer-" <> texts.number index

-- A printer of the report, with the summary of its telemetry after its own fields.
unfoldable pub printer_document : Texts → ℕ → Value → Value → Value → Fields → Fields
unfolding device_summary
printer_document texts index reachable version klippy_state telemetry =
    field "alias" (str (alias_of texts index)) (
      field "reachable" reachable (
        field "moonraker_version" version
          (field "klippy_state" klippy_state (device_summary texts telemetry))))

abbrev telemetry_of : Value → Fields → Fields
telemetry_of identifier snapshots = elim (as_str identifier) [
  | none ↦ end
  | some id ↦ dict_or_empty (get id snapshots)
]

-- The printers of the catalog, numbered from `index`.
unfoldable pub catalog_printers : Texts → Fields → ℕ → List Fields → List Fields
unfolding printer_document
catalog_printers texts snapshots index [] = []
catalog_printers texts snapshots index (item ∷ items) =
    printer_document texts index (bool (truthy (get "reachable" item)))
      (sanitized_or_null texts (get "moonraker_version" item))
      (sanitized_or_null texts (get "klippy_state" item))
      (telemetry_of (get "instance_id" item) snapshots)
    ∷ catalog_printers texts snapshots (index + 1) items

abbrev is_id : String → Value → Bool
is_id id v = elim v [ str s ↦ str_eq s id | _ ↦ false ]

-- `identifier in aliases`
unfoldable pub is_listed : String → List Fields → Bool
is_listed id [] = false
is_listed id (item ∷ items) = is_id id (get "instance_id" item) || is_listed id items

-- The printers with telemetry that the catalog does not list, numbered from `index`.
unfoldable pub other_printers : Texts → List Fields → ℕ → Fields → List Fields
unfolding printer_document is_listed
other_printers texts items index end = []
other_printers texts items index (field id telemetry snapshots) =
    let passed_over = other_printers texts items index snapshots in
    let later = other_printers texts items (index + 1) snapshots in
    elim (as_dict telemetry) [
      | none ↦ passed_over
      | some fs ↦
          if is_listed id items
          then passed_over
          else printer_document texts index null null null fs ∷ later
    ]

-- The printers of `collect_diagnostics`.
unfoldable pub printers : Texts → List Fields → Fields → List Fields
unfolding catalog_printers other_printers
printers texts items snapshots =
    catalog_printers texts snapshots 1 items
    ++ other_printers texts items (length items + 1) snapshots

-- What `_read_api` returns: the result of a response, or an error text.
pub data Reading : Type 0 where
  answered : Fields → Reading
  failed : String → Reading

-- `(OSError, asyncio.TimeoutError, ValueError)`
abbrev is_caught : Error → Bool
is_caught (value message) = true
is_caught (other name) = str_eq name "OSError" || str_eq name "TimeoutError"
is_caught _ = false

-- `_read_api`, of what the request comes to. `describe` is the text of an exception.
unfoldable pub read_api : Texts → (Error → String) → Result Value → Result Reading
read_api texts describe (err e) =
    if is_caught e then ok (failed (sanitize_text texts (str (describe e)) [])) else err e
read_api texts describe (ok response) = elim (as_dict response) [
  | none ↦ ok (failed "API request was rejected")
  | some fs ↦
      if truthy (get "ok" fs)
      then ok (answered (dict_or_empty (get "result" fs)))
      else ok (failed "API request was rejected")
]

abbrev dicts_in : Items → List Fields
dicts_in nil = []
dicts_in (cons x xs) =
    let rest = dicts_in xs in elim (as_dict x) [ none ↦ rest | some fs ↦ fs ∷ rest ]

-- The items of the catalog that are objects.
unfoldable pub catalog_items : Reading → List Fields
catalog_items (failed v) = []
catalog_items (answered result) = elim (get "instances" result) [ arr xs ↦ dicts_in xs | _ ↦ [] ]

unfoldable pub snapshots_in : Reading → Fields
snapshots_in (failed v) = end
snapshots_in (answered result) = dict_or_empty (get "instances" result)

abbrev is_answered : Reading → Bool
is_answered (answered fs) = true
is_answered (failed v) = false

abbrev health_of : Reading → Value
health_of (answered fs) = obj (safe_health fs)
health_of (failed v) = null

abbrev error_of : Reading → Value
error_of (answered fs) = null
error_of (failed text) = str text

abbrev documents : List Fields → Items
documents [] = nil
documents (fs ∷ rest) = cons (obj fs) (documents rest)

-- What the report takes from the host: `utc_now`, the agent, the service, the two files and the recent
-- errors.
pub record Host : Type 0 where
  pub generated_at : String
  pub agent : Fields
  pub service : Fields
  pub socket : Fields
  pub state_file : Fields
  pub recent_errors : Items

abbrev privacy : Fields
privacy = field "raw_state_included" (bool false) (
    field "hostnames_included" (bool false) (
      field "instance_ids_included" (bool false) (
        field "socket_paths_included" (bool false)
          (field "print_filenames_included" (bool false) end))))

-- `collect_diagnostics`, of the three readings.
unfoldable pub collect_diagnostics : Texts → Host → Reading → Reading → Reading → Fields
unfolding catalog_items snapshots_in printers safe_health
collect_diagnostics texts host health catalog snapshot =
    field "diagnostics_schema_version" (int (pos 1)) (
      field "generated_at" (str host.generated_at) (
        field "agent" (obj host.agent) (
          field "service" (obj host.service) (
            field "local_api"
              (obj (
                field "available" (bool (is_answered health)) (
                  field "socket" (obj host.socket)
                    (field "health" (health_of health) (field "error" (error_of health) end)))))
              (field "state_file" (obj host.state_file) (
                field "printers"
                  (arr (documents (printers texts (catalog_items catalog) (snapshots_in snapshot))))
                  (field "recent_sanitized_errors" (arr host.recent_errors)
                    (field "privacy" (obj privacy) end))))))))
