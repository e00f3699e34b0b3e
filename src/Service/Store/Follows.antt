-- ===== src/Service/Store/Follows.antt =====
-- service.py: the file of the store follows its instances.
use printer_hmi_remote.Prelude.{
  ℕ, ◌+◌, ◌≤◌, String, ◌≡◌, refl, true, false, Option, none, some, arith, ok, Bool-cases,
  Option-cases, ◌-◌, inl, inr,
}
use printer_hmi_remote.Prelude.Int.{pos}
use printer_hmi_remote.Json.{Value, int, str, obj, Fields, end, field, get, lookup}
use printer_hmi_remote.Service.Store.{
  Store, Tick, document, write_locked, changed, is_due, scheduled, update, write_dirty, flush,
  flush_after,
}

abbrev pub IsShown : Option Value → Fields → Type 0
IsShown file instances =
    (doc : Fields) × (file ≡ some (obj doc)) × (get "instances" doc ≡ obj instances)

-- The task wakes within one interval of the last write.
abbrev pub IsSoon : Option ℕ → ℕ → Type 0
IsSoon none latest = Unit
IsSoon (some deadline) latest = deadline ≤ latest

-- Up to a time: what is not in the file has a task that will write it within one interval of the
-- last write, and what is not dirty is in the file.
abbrev pub IsFollowed : ℕ → Store → Type 0
IsFollowed now s =
    (s.last_write_time ≤ now)
    × IsSoon s.flush_task (s.last_write_time + s.minimum_write_interval)
    × (s.dirty ≡ true → (deadline : ℕ) × (s.flush_task ≡ some deadline))
    × (s.dirty ≡ false → IsShown s.file s.instances)

pub document-IsShown : (t : Tick) (s : Store) → IsShown (some (document t s)) s.instances
unfolding document lookup
document-IsShown t s = (
  field "schema_version" (int (pos 1))
      (field "generated_at" (str t.stamp) (field "instances" (obj s.instances) end)),
  refl,
  refl,
)

IsSoon-le : (task : Option ℕ) (m n : ℕ) → m ≤ n → IsSoon task m → IsSoon task n
IsSoon-le none m n h g = tt
IsSoon-le (some d) m n h g = omega arith

pub write_locked-IsFollowed :
    (t : Tick) (s : Store)
    → t.writable ≡ true
    → s.last_write_time ≤ t.now
    → IsSoon s.flush_task (s.last_write_time + s.minimum_write_interval)
    → IsFollowed t.now (write_locked t s).1
unfolding write_locked
write_locked-IsFollowed t s w h soon = rw w (
  omega arith,
  IsSoon-le s.flush_task (s.last_write_time + s.minimum_write_interval)
      (t.now + s.minimum_write_interval) (omega arith) soon,
  λ d. cc,
  λ d. document-IsShown t s,
)

pub later-IsFollowed : (m n : ℕ) (s : Store) → m ≤ n → IsFollowed m s → IsFollowed n s
later-IsFollowed m n s h (a, b, c, d) = (omega arith, b, c, d)

written : (t : Tick) (s : Store) → t.writable ≡ true → (write_locked t s).1.dirty ≡ false
unfolding write_locked
written t s w = rw w refl

write_dirty_of_dirty : (t : Tick) (s : Store) → s.dirty ≡ true → write_dirty t s ≡ write_locked t s
unfolding write_dirty
write_dirty_of_dirty t s h = ground arith

write_dirty_of_clean : (t : Tick) (s : Store) → s.dirty ≡ false → write_dirty t s ≡ (ok tt, s)
unfolding write_dirty
write_dirty_of_clean t s h = ground arith

write_dirty-IsFollowed :
    (t : Tick) (s : Store)
    → t.writable ≡ true
    → s.last_write_time ≤ t.now
    → IsSoon s.flush_task (s.last_write_time + s.minimum_write_interval)
    → (s.dirty ≡ false → IsShown s.file s.instances)
    → ((write_dirty t s).1.dirty ≡ false) × IsFollowed t.now (write_dirty t s).1
write_dirty-IsFollowed t s w h soon shown = elim (Bool-cases s.dirty) [
  | inl dirty ↦
      rw (write_dirty_of_dirty t s dirty) (written t s w, write_locked-IsFollowed t s w h soon)
  | inr clean ↦
      rw (write_dirty_of_clean t s clean)
        (clean, (h, soon, λ d. absurd (ground (arith, clean)), shown))
]

-- A store that is clean is followed without its task.
without_task :
    (now : ℕ) (s : Store)
    → s.dirty ≡ false
    → IsFollowed now s
    → IsFollowed now (record s { flush_task = none })
without_task now s clean (a, b, c, d) = (a, tt, λ h. absurd (ground (arith, clean)), d)

update_of_due :
    (t : Tick) (id : String) (payload : Value) (s : Store)
    → is_due t s ≡ true
    → update t id payload s ≡ write_locked t (changed id payload s)
unfolding update
update_of_due t id payload s h = rw h refl

update_of_early :
    (t : Tick) (id : String) (payload : Value) (s : Store)
    → is_due t s ≡ false
    → update t id payload s ≡ (ok tt, scheduled t (changed id payload s))
unfolding update
update_of_early t id payload s h = rw h refl

scheduled-IsFollowed :
    (t : Tick) (s : Store)
    → s.dirty ≡ true
    → is_due t s ≡ false
    → s.last_write_time ≤ t.now
    → IsSoon s.flush_task (s.last_write_time + s.minimum_write_interval)
    → IsFollowed t.now (scheduled t s)
scheduled-IsFollowed t s dirty early a b = elim (Option-cases s.flush_task) [
  | inl idle ↦ (
    ground (arith, idle),
    ground (arith, idle),
    λ h. (t.now + (s.minimum_write_interval - (t.now - s.last_write_time)), ground (arith, idle)),
    λ h. absurd (ground (arith, idle)),
  )
  | inr (deadline, waits) ↦ (
    ground (arith, waits),
    ground (arith, waits),
    λ h. (deadline, ground (arith, waits)),
    λ h. absurd (ground (arith, waits)),
  )
]

pub update-IsFollowed :
    (m : ℕ) (t : Tick) (id : String) (payload : Value) (s : Store)
    → t.writable ≡ true
    → m ≤ t.now
    → IsFollowed m s
    → IsFollowed t.now (update t id payload s).1
update-IsFollowed m t id payload s w later (a, b, c, d) = elim (Bool-cases (is_due t s)) [
  | inl due ↦
      rw (update_of_due t id payload s due)
        (write_locked-IsFollowed t (changed id payload s) w (omega arith) b)
  | inr early ↦
      rw (update_of_early t id payload s early)
        (scheduled-IsFollowed t (changed id payload s) refl early (omega arith) b)
]

pub flush-IsFollowed :
    (m : ℕ) (t : Tick) (s : Store)
    → t.writable ≡ true
    → m ≤ t.now
    → IsFollowed m s
    → IsFollowed t.now (flush t s).1
unfolding flush
flush-IsFollowed m t s w later (a, b, c, d) =
    (write_dirty-IsFollowed t (record s { flush_task = none }) w (omega arith) tt d).1

pub flush_after-IsFollowed :
    (m : ℕ) (t : Tick) (s : Store)
    → t.writable ≡ true
    → m ≤ t.now
    → IsFollowed m s
    → ((flush_after t s).1.dirty ≡ false) × IsFollowed t.now (flush_after t s).1
unfolding flush_after
flush_after-IsFollowed m t s w later (a, b, c, d) =
    let (clean, followed) = write_dirty-IsFollowed t s w (omega arith) b d in
    (clean, without_task t.now (write_dirty t s).1 clean followed)
