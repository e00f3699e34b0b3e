-- ===== src/Service/Telemetry/Merge.antt =====
-- telemetry.py: what a status holds after an update was merged into it.
use printer_hmi_remote.Prelude.{String, ap, ◌≡◌, refl, subst, Option, none, some, arith, eq_iff}
use printer_hmi_remote.Json.{Value, null, obj, Fields, end, field, get, lookup, insert, or_null}
use printer_hmi_remote.Json.Keys.{get-IsJson}
use printer_hmi_remote.Json.Laws.{IsJson, IsJsonFields, lookup-insert}
use printer_hmi_remote.Service.Telemetry.{update, merged, merge_status}

-- What an object holds under a key once one update has been applied.
abbrev pub over : Option Value → Option Value → Option Value
over old none = old
over old (some v) = some v

pub lookup-update :
    (k : String) (fs gs : Fields)
    → IsJsonFields gs
    → lookup k (update fs gs) ≡ over (lookup k fs) (lookup k gs)
unfolding update lookup IsJson
lookup-update k fs end h = refl
lookup-update k fs (field j v gs) h =
    ground (arith, lookup-update k (insert j v fs) gs h.2, lookup-insert j k v fs, eq_iff j k, h.0)

-- What a status holds under a name after a merge, of what it held and what the update has there: the
-- same where the update names no such object; of two objects one that holds, under every key, what the
-- update has there or else what was there; and in any other case what the update has.
abbrev pub IsMerge : Option Value → Option Value → Option Value → Type 0
IsMerge old none new = new ≡ old
IsMerge (some (obj fs)) (some (obj gs)) new =
    (hs : Fields) × (new ≡ some (obj hs))
    × ((key : String) → lookup key hs ≡ over (lookup key fs) (lookup key gs))
IsMerge old (some v) new = new ≡ some v

abbrev merged_at : Value → Option Value → Option Value
merged_at old none = none
merged_at old (some v) = some (merged old v)

lookup-merged :
    (k : String) (current changes : Fields)
    → IsJsonFields changes
    → lookup k (merge_status current changes)
      ≡ over (lookup k current) (merged_at (get k current) (lookup k changes))
unfolding merge_status lookup IsJson
lookup-merged k current end h = refl
lookup-merged k current (field j v changes) h = ground (
  arith,
  lookup-merged k (insert j (merged (get j current) v) current) changes h.2,
  lookup-insert j k (merged (get j current) v) current,
  eq_iff j k,
  h.0,
)

lookup-IsJson :
    (k : String) (fs : Fields) (v : Value) → IsJsonFields fs → lookup k fs ≡ some v → IsJson v
unfolding lookup
lookup-IsJson k fs v h e = subst (λ o. IsJson (or_null o)) e (get-IsJson k fs h)

merged_null : (v : Value) → merged null v ≡ v
unfolding merged
merged_null v = ground arith

merged-IsMerge :
    (old new : Option Value)
    → ((v : Value) → new ≡ some v → IsJson v)
    → IsMerge old new (over old (merged_at (or_null old) new))
unfolding merged IsJson
merged-IsMerge old none h = refl
merged-IsMerge none (some v) h = ap some (merged_null v)
merged-IsMerge (some (obj fs)) (some (obj gs)) h =
    (update fs gs, refl, λ key. lookup-update key fs gs (h (obj gs) refl))
merged-IsMerge old (some v) h = ground arith

-- After a merge of an update whose objects have distinct keys, a status holds what `IsMerge` says of
-- what it held and what the update has.
pub merge_status-IsMerge :
    (name : String) (current changes : Fields)
    → IsJsonFields changes
    → IsMerge
        (lookup name current)
        (lookup name changes)
        (lookup name (merge_status current changes))
merge_status-IsMerge name current changes h = rw (lookup-merged name current changes h) (
    merged-IsMerge (lookup name current) (lookup name changes)
      λ v e. lookup-IsJson name changes v h e)
