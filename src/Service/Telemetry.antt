-- ===== src/Service/Telemetry.antt =====
-- telemetry.py: what the agent subscribes to, and how it keeps and reports a printer's status.
pub mod Merge
use Prim.Native.Nat.{Ordering}
use Prim.Native.String.{compare}
use printer_hmi_remote.Prelude.{
  String, Bool, true, false, not, ◌||◌, Option, none, some, List, [], ◌∷◌, starts_with, Error,
  other, Result, ok, err, ◌>>=◌, if◌then◌else◌,
}
use printer_hmi_remote.Json.{
  Value, null, bool, int, float, str, arr, obj, nil, cons, Items, Fields, end, field, get, lookup,
  insert, has, member, truthy, as_dict,
}

abbrev strings : List String → Items
strings [] = nil
strings (s ∷ ss) = cons (str s) (strings ss)

abbrev fields_of_print : List String
fields_of_print =
    "state" ∷ "filename" ∷ "message" ∷ "total_duration" ∷ "print_duration" ∷ "filament_used" ∷ []

-- `CORE_OBJECTS`
abbrev pub core_objects : List (String × List String)
core_objects =
    ("display_status", "progress" ∷ "message" ∷ [])
    ∷ ("print_stats", fields_of_print)
    ∷ ("toolhead", "homed_axes" ∷ "position" ∷ "status" ∷ [])
    ∷ ("virtual_sdcard", "progress" ∷ "file_position" ∷ "file_size" ∷ [])
    ∷ []

abbrev pub temperature_prefixes : List String
temperature_prefixes =
    "extruder" ∷ "heater_bed" ∷ "heater_generic " ∷ "temperature_sensor " ∷ "temperature_fan " ∷ []

abbrev pub fan_prefixes : List String
fan_prefixes = "fan" ∷ "fan_generic " ∷ "controller_fan " ∷ "temperature_fan " ∷ []

-- `name.startswith(prefixes)`
unfoldable pub has_prefix : String → List String → Bool
has_prefix name [] = false
has_prefix name (prefix ∷ prefixes) = starts_with name prefix || has_prefix name prefixes

insert_name : String → List String → List String
insert_name s [] = s ∷ []
insert_name s (t ∷ ts) =
    let rest = t ∷ insert_name s ts in
    elim (compare s t) [ Ordering.lt ↦ s ∷ t ∷ ts | Ordering.eq ↦ t ∷ ts | Ordering.gt ↦ rest ]

-- `sorted(set(names))`
unfoldable pub sorted_names : List String → List String
unfolding insert_name
sorted_names [] = []
sorted_names (s ∷ ss) = insert_name s (sorted_names ss)

unfoldable pub core_subscription : List (String × List String) → List String → Fields
core_subscription [] available = end
core_subscription ((name, names) ∷ rest) available =
    let others = core_subscription rest available in
    if member name available then field name (arr (strings names)) others else others

unfoldable pub add_named : List String → Fields → Fields
unfolding has_prefix
add_named [] subscription = subscription
add_named (name ∷ names) subscription = add_named names (
    if has_prefix name temperature_prefixes || has_prefix name fan_prefixes
    then insert name null subscription
    else subscription)

unfoldable pub subscription_for : List String → Fields
unfolding sorted_names core_subscription add_named
subscription_for objects = add_named (sorted_names objects) (core_subscription core_objects objects)

-- `d.update(other)`
unfoldable pub update : Fields → Fields → Fields
update fs end = fs
update fs (field k v gs) = update (insert k v fs) gs

abbrev updated : Value → Fields → Value
updated old gs = elim old [ obj fs ↦ obj (update fs gs) | _ ↦ obj gs ]

-- What `merge_status` keeps for one object: two objects are merged, anything else is replaced.
unfoldable pub merged : Value → Value → Value
unfolding update
merged old (obj gs) = updated old gs
merged old v = v

unfoldable pub merge_status : Fields → Fields → Fields
unfolding merged
merge_status current end = current
merge_status current (field name fields rest) =
    merge_status (insert name (merged (get name current) fields) current) rest

-- `status.get(name, {}).get(key)`, where a value that is no object has no `get`.
unfoldable pub get_in : String → String → Fields → Result Value
get_in name key status = elim (lookup name status) [
  | none ↦ ok null
  | some v ↦ elim v [ obj fs ↦ ok (get key fs) | _ ↦ err (other "AttributeError") ]
]

-- `isinstance(v, (int, float))`, which a `bool` is.
abbrev pub is_real : Value → Bool
is_real v = elim v [ int n ↦ true | float m ↦ true | bool b ↦ true | _ ↦ false ]

-- `{key: fields.get(key) for key in names if key in fields}`
unfoldable pub pick_keys : List String → Fields → Fields
pick_keys [] fs = end
pick_keys (k ∷ ks) fs =
    let rest = pick_keys ks fs in if has k fs then field k (get k fs) rest else rest

-- The objects with one of the prefixes, each with the named fields that it has.
unfoldable pub pick_objects : List String → List String → Fields → Fields
unfolding has_prefix pick_keys
pick_objects prefixes names end = end
pick_objects prefixes names (field name v status) =
    let rest = pick_objects prefixes names status in
    elim v [
      | obj fs ↦
          if has_prefix name prefixes then field name (obj (pick_keys names fs)) rest else rest
      | _ ↦ rest
    ]

abbrev first_of : Bool → Value → Result Value → Result Value
first_of true v other_value = ok v
first_of false v other_value = other_value

abbrev or_empty : Option Value → Value
or_empty none = obj end
or_empty (some v) = v

unfoldable pub normalized_status : Fields → Result Value
unfolding get_in pick_objects
normalized_status status = do
  on_card ← get_in "virtual_sdcard" "progress" status
  progress ← first_of (is_real on_card) on_card (get_in "display_status" "progress" status)
  state ← get_in "print_stats" "state" status
  filename ← get_in "print_stats" "filename" status
  printed ← get_in "print_stats" "message" status
  message ← first_of (truthy printed) printed (get_in "display_status" "message" status)
  total_duration ← get_in "print_stats" "total_duration" status
  print_duration ← get_in "print_stats" "print_duration" status
  filament_used ← get_in "print_stats" "filament_used" status
  let print = field "state" state (
      field "filename" filename (
        field "message" message (
          field "progress" progress (
            field "total_duration" total_duration
              (field "print_duration" print_duration (field "filament_used" filament_used end))))))
  ok (
      obj (
        field "print" (obj print) (
          field "toolhead" (or_empty (lookup "toolhead" status)) (
            field "temperatures"
              (obj (
                pick_objects temperature_prefixes
                  ("temperature" ∷ "target" ∷ "power" ∷ "humidity" ∷ []) status))
              (field "fans" (obj (pick_objects fan_prefixes ("speed" ∷ "rpm" ∷ []) status)) end)))))
