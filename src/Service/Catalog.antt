-- ===== src/Service/Catalog.antt =====
-- moonraker.py, catalog.py, model.py and discovery.py: the printers that the agent finds on its host.
use printer_hmi_remote.Prelude.{
  String, Bool, true, false, not, Option, none, some, List, [], ◌∷◌, str_eq, Error, other, Result,
  ok, err, need, raise_if, ◌>>=◌, ◌>>◌, if◌then◌else◌,
}
use printer_hmi_remote.Json.{Value, null, bool, str, Fields, end, field, get, has, as_dict, is_one}
use printer_hmi_remote.Codec.Base64.{Bytes}
use printer_hmi_remote.Platform.{Platform}
use printer_hmi_remote.Service.Monitor.{protocol_error}
use printer_hmi_remote.Service.Telemetry.{sorted_names}

-- `MoonrakerInstance`
pub record MoonrakerInstance : Type 0 where
  pub instance_id : String
  pub socket_path : String
  pub data_path : String
  pub hostname : Option String
  pub moonraker_version : Option String
  pub klippy_state : Option String
  pub reachable : Bool
  pub error : Option String

abbrev or_none : Option String → Value
or_none none = null
or_none (some s) = str s

unfoldable pub to_dict : MoonrakerInstance → Fields
to_dict i = field "instance_id" (str i.instance_id) (
    field "socket_path" (str i.socket_path) (
      field "data_path" (str i.data_path) (
        field "hostname" (or_none i.hostname) (
          field "moonraker_version" (or_none i.moonraker_version) (
            field "klippy_state" (or_none i.klippy_state)
              (field "reachable" (bool i.reachable) (field "error" (or_none i.error) end)))))))

-- What is known of a socket path: its identifier, `str(path)`, `path.parent.parent` and its name.
pub record Place : Type 0 where
  pub instance_id : String
  pub socket_path : String
  pub data_path : String
  pub name : String

-- `request` of moonraker.py, from the frame that comes back.
unfoldable pub request : Platform → Result Bytes → Result Fields
request p frame = do
  raw ← frame
  document ← need (p.json_loads raw) protocol_error
  response ← need (as_dict document) (other "AttributeError")
  raise_if (not (is_one (get "id" response))) protocol_error
  raise_if (has "error" response) protocol_error
  need (as_dict (get "result" response)) protocol_error

-- `_optional_text`
unfoldable pub optional_text : Value → Option String
optional_text (str s) = if str_eq s "" then none else some s
optional_text _ = none

-- `a or b`
abbrev or_else : Option String → String → String
or_else none s = s
or_else (some t) s = t

abbrev or_blank : Result Fields → Fields
or_blank (ok fs) = fs
or_blank (err e) = end

-- The host's name, where `printer.info` or `server.info` gives one.
unfoldable pub hostname_of : Fields → Fields → String → String
unfolding optional_text
hostname_of printer_info info name =
    or_else (optional_text (get "hostname" printer_info))
      (or_else (optional_text (get "hostname" info)) name)

-- `inspect_instance`, of the answers to its two requests. `describe` is the text of an exception.
unfoldable pub inspect_instance :
    (Error → String) → Place → Result Fields → Result Fields → MoonrakerInstance
unfolding hostname_of
inspect_instance describe place (err e) printer_info = record {
  instance_id = place.instance_id;
  socket_path = place.socket_path;
  data_path = place.data_path;
  hostname = none;
  moonraker_version = none;
  klippy_state = none;
  reachable = false;
  error = some (describe e);
}
inspect_instance describe place (ok info) printer_info = record {
  instance_id = place.instance_id;
  socket_path = place.socket_path;
  data_path = place.data_path;
  hostname = some (hostname_of (or_blank printer_info) info place.name);
  moonraker_version = optional_text (get "moonraker_version" info);
  klippy_state = optional_text (get "klippy_state" info);
  reachable = true;
  error = none;
}

unfoldable pub only_sockets : (String → Bool) → List String → List String
only_sockets is_socket [] = []
only_sockets is_socket (path ∷ paths) =
    let rest = only_sockets is_socket paths in if is_socket path then path ∷ rest else rest

-- `discover_socket_paths`, of the candidates resolved.
unfoldable pub discover_socket_paths : (String → Bool) → List String → List String
unfolding only_sockets
discover_socket_paths is_socket candidates = sorted_names (only_sockets is_socket candidates)
