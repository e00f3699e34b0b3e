-- ===== src/Registry.antt =====
-- relay_registry.py: `RelaySnapshotRegistry`. Each method is one step under its lock.
pub mod Laws
use printer_hmi_remote.Prelude.{
  ℕ, ◌+◌, ◌-◌, String, Bool, true, false, not, ◌&&◌, Option, none, some, List, [], ◌∷◌, str_eq, leb,
  if◌then◌else◌, Error, value,
}
use printer_hmi_remote.Prelude.Int.{pos}
use printer_hmi_remote.Action.{Action, lift, gets, modify, check, ◌>>=◌, ◌>>◌}
use printer_hmi_remote.Json.{Value, null, bool, int, str, obj, Fields, end, field, member}
use printer_hmi_remote.Dict
use printer_hmi_remote.Dict.{Dict}
use printer_hmi_remote.Codec.Time.{timestamp}
use printer_hmi_remote.Platform.{Platform}
use printer_hmi_remote.Transport.Link.{os_error}

-- The latest snapshot of a device. Its `device_id` is its key; instants are in microseconds.
pub record Record : Type 0 where
  pub device_id : String
  pub sequence : ℕ
  pub received_at : String
  pub received_epoch : ℕ
  pub snapshot : Fields

-- `state_file` is what was last written there.
pub record Registry : Type 0 where
  pub device_ids : List String
  pub stale_after : ℕ
  pub records : Dict Record
  pub active_sessions : Dict ℕ
  pub state_file : Option Value

-- `sorted(set(device_ids))`
abbrev as_set : List String → Dict (Unit {0})
as_set [] = []
as_set (k ∷ ks) = Dict.insert k tt (as_set ks)

abbrev names : Dict (Unit {0}) → List String
names [] = []
names ((k, _) ∷ d) = k ∷ names d

unfoldable pub create_registry : List String → ℕ → Registry
create_registry device_ids stale_after = record {
  device_ids = names (Dict.sorted_items (as_set device_ids));
  stale_after = stale_after;
  records = [];
  active_sessions = [];
  state_file = none;
}

abbrev or_zero : Option ℕ → ℕ
or_zero none = 0
or_zero (some n) = n

-- `self.active_sessions.get(device_id, 0)`
unfoldable pub sessions : String → Registry → ℕ
sessions device_id r = or_zero (Dict.lookup device_id r.active_sessions)

unfoldable pub session_opened : String → Registry → Registry
unfolding sessions
session_opened device_id r = record r {
  active_sessions = Dict.insert device_id (sessions device_id r + 1) r.active_sessions;
}

-- `max(0, n - 1)` is subtraction on ℕ.
unfoldable pub session_closed : String → Registry → Registry
unfolding sessions
session_closed device_id r = record r {
  active_sessions = Dict.insert device_id (sessions device_id r - 1) r.active_sessions;
}

-- A record as `snapshot` shows it and as the file holds it: without `received_epoch`.
unfoldable pub record_document : Record → Fields
record_document e = field "device_id" (str e.device_id) (
    field "sequence" (int (pos e.sequence))
      (field "received_at" (str e.received_at) (field "snapshot" (obj e.snapshot) end)))

unfoldable pub record_documents : Dict Record → Fields
record_documents [] = end
record_documents ((k, e) ∷ d) = field k (obj (record_document e)) (record_documents d)

-- `_write_locked`, which may find that the file cannot be written.
unfoldable pub write_registry : Bool → Action Registry Unit
write_registry disk_fails = do
  check disk_fails os_error
  modify λ (r : Registry). record r {
    state_file = some (
        obj (
          field "schema_version" (int (pos 1))
            (field "records" (obj (record_documents r.records)) end)));
  }

module _ (p : Platform) where
  abbrev pub new_record : String → ℕ → Fields → ℕ → Record
  new_record device_id sequence snapshot now = record {
    device_id = device_id;
    sequence = sequence;
    received_at = timestamp p now;
    received_epoch = now;
    snapshot = snapshot;
  }

  unfoldable pub publish : String → ℕ → Fields → ℕ → Bool → Action Registry Unit
  unfolding write_registry
  publish device_id sequence snapshot now disk_fails = do
    device_ids ← gets λ (r : Registry). r.device_ids
    check (not (member device_id device_ids)) (value "device is not enrolled")
    modify λ (r : Registry). record r {
      records = Dict.insert device_id (new_record device_id sequence snapshot now) r.records;
    }
    write_registry disk_fails

  -- `now - record["received_epoch"] <= self.stale_after`; a clock that went back leaves it online.
  unfoldable pub is_online : ℕ → ℕ → Option Record → Bool
  is_online now stale_after none = false
  is_online now stale_after (some e) = leb (now - e.received_epoch) stale_after

  abbrev last_seen : Option Record → Value
  last_seen none = null
  last_seen (some e) = str e.received_at

  abbrev last_sequence : Option Record → Value
  last_sequence none = null
  last_sequence (some e) = int (pos e.sequence)

  unfoldable pub device_document : Registry → ℕ → String → Fields
  device_document r now device_id =
      let found = Dict.lookup device_id r.records in
      field "device_id" (str device_id) (
        field "online" (bool (is_online now r.stale_after found)) (
          field "active_sessions" (int (pos (sessions device_id r)))
            (field "last_seen" (last_seen found) (field "sequence" (last_sequence found) end))))

  unfoldable pub device_documents : Registry → ℕ → List String → Fields
  device_documents r now [] = end
  device_documents r now (k ∷ ks) =
      field k (obj (device_document r now k)) (device_documents r now ks)

  unfoldable pub registry_document : Registry → ℕ → Fields
  registry_document r now = field "schema_version" (int (pos 1)) (
      field "generated_at" (str (timestamp p now))
        (field "devices" (obj (device_documents r now r.device_ids)) end))

unfoldable pub snapshot : String → Registry → Option Fields
snapshot device_id r = elim (Dict.lookup device_id r.records) [
  | none ↦ none
  | some e ↦ some (record_document e)
]
