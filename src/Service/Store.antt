-- ===== src/Service/Store.antt =====
-- service.py: `SnapshotStore`, whose file follows the instances at most one interval behind.
pub mod Follows
pub mod Instances
pub mod Runs
use printer_hmi_remote.Prelude.{
  ℕ, ◌+◌, ◌-◌, String, Bool, true, false, ◌||◌, Option, none, some, List, [], ◌∷◌, leb, ◌==◌,
  Result, ok, err, if◌then◌else◌,
}
use printer_hmi_remote.Prelude.Int.{pos}
use printer_hmi_remote.Action.{Action}
use printer_hmi_remote.Json.{Value, int, str, obj, Fields, end, field, insert}
use printer_hmi_remote.Transport.Link.{os_error}

-- The clock of the event loop is in microseconds, and 0 stands for a store that never wrote. The flush
-- task is the time when its sleep is over.
pub record Store : Type 0 where
  pub minimum_write_interval : ℕ
  pub instances : Fields
  pub dirty : Bool
  pub last_write_time : ℕ
  pub flush_task : Option ℕ
  pub file : Option Value

-- What one operation finds: the loop's time, the time as a text, and whether the file can be written.
pub record Tick : Type 0 where
  pub now : ℕ
  pub stamp : String
  pub writable : Bool

-- `_document_locked`
unfoldable pub document : Tick → Store → Value
document t s = obj (
    field "schema_version" (int (pos 1))
      (field "generated_at" (str t.stamp) (field "instances" (obj s.instances) end)))

-- `_write_locked`
unfoldable pub write_locked : Tick → Action Store Unit
unfolding document
write_locked t s =
    if t.writable
    then (ok tt, record s { file = some (document t s); dirty = false; last_write_time = t.now })
    else (err os_error, s)

-- A flush task is created, unless there is one.
abbrev pub scheduled : Tick → Store → Store
scheduled t s = elim s.flush_task [
  | none ↦
      let elapsed = t.now - s.last_write_time in
      record s { flush_task = some (t.now + (s.minimum_write_interval - elapsed)) }
  | some deadline ↦ s
]

-- `self.instances[instance_id] = payload`
abbrev pub changed : String → Value → Store → Store
changed id payload s = record s { instances = insert id payload s.instances; dirty = true }

-- The first write, or one that is due.
abbrev pub is_due : Tick → Store → Bool
is_due t s = s.last_write_time == 0 || leb s.minimum_write_interval (t.now - s.last_write_time)

-- `update`
unfoldable pub update : Tick → String → Value → Action Store Unit
unfolding write_locked
update t instance_id payload s =
    if is_due t s
    then write_locked t (changed instance_id payload s)
    else (ok tt, scheduled t (changed instance_id payload s))

-- Writing what has not been written.
unfoldable pub write_dirty : Tick → Action Store Unit
unfolding write_locked
write_dirty t s = if s.dirty then write_locked t s else (ok tt, s)

-- `flush` cancels the task, and writes.
unfoldable pub flush : Tick → Action Store Unit
unfolding write_dirty
flush t s = write_dirty t (record s { flush_task = none })

-- The end of `_flush_after`, where the sleep of the task is over. The task is forgotten either way.
unfoldable pub flush_after : Tick → Action Store Unit
unfolding write_dirty
flush_after t s = let (r, s') = write_dirty t s in (r, record s' { flush_task = none })

pub data Event : Type 0 where
  updated : Tick → String → Value → Event
  flushed : Tick → Event
  woken : Tick → Event

-- There is a task, and its sleep is over.
abbrev pub is_awake : Tick → Store → Bool
is_awake t s = elim s.flush_task [ none ↦ false | some deadline ↦ leb deadline t.now ]

-- The task wakes where there is one, once its time has come.
unfoldable pub step : Event → Store → Store
unfolding update flush flush_after
step (updated t instance_id payload) s = (update t instance_id payload s).1
step (flushed t) s = (flush t s).1
step (woken t) s = if is_awake t s then (flush_after t s).1 else s

unfoldable pub run : List Event → Store → Store
unfolding step
run [] s = s
run (e ∷ es) s = run es (step e s)

-- `SnapshotStore(path, minimum_write_interval)`, with what the file held before.
abbrev pub new_store : ℕ → Option Value → Store
new_store interval file = record {
  minimum_write_interval = interval;
  instances = end;
  dirty = false;
  last_write_time = 0;
  flush_task = none;
  file = file;
}
