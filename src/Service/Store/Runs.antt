-- ===== src/Service/Store/Runs.antt =====
-- service.py: whatever happens to the store, its file follows.
use printer_hmi_remote.Prelude.{
  ℕ, ◌+◌, ◌≤◌, sym, subst, String, ◌≡◌, true, Option, none, some, List, [], ◌∷◌, arith, Bool-cases,
  Option-cases, inl, inr,
}
use printer_hmi_remote.Json.{Value}
use printer_hmi_remote.Service.Store.{
  Store, Tick, changed, update, write_locked, write_dirty, flush_after, Event, updated, flushed,
  woken, is_awake, step, run, new_store,
}
use printer_hmi_remote.Service.Store.Follows.{
  IsShown, IsFollowed, IsSoon, later-IsFollowed, write_locked-IsFollowed, update-IsFollowed,
  flush-IsFollowed, flush_after-IsFollowed,
}

-- The time of an event, and whether its write can go well.
abbrev pub tick_of : Event → Tick
tick_of (updated t id payload) = t
tick_of (flushed t) = t
tick_of (woken t) = t

-- The time of an event is not before the one of the last, and its write goes well.
abbrev pub IsTimely : ℕ → List Event → Type 0
IsTimely m [] = Unit
IsTimely m (e ∷ es) =
    ((tick_of e).writable ≡ true) × (m ≤ (tick_of e).now) × IsTimely (tick_of e).now es

step-IsFollowed :
    (m : ℕ) (e : Event) (s : Store)
    → (tick_of e).writable ≡ true
    → m ≤ (tick_of e).now
    → IsFollowed m s
    → IsFollowed (tick_of e).now (step e s)
unfolding step
step-IsFollowed m (updated t id payload) s w later h = update-IsFollowed m t id payload s w later h
step-IsFollowed m (flushed t) s w later h = flush-IsFollowed m t s w later h
step-IsFollowed m (woken t) s w later h = elim (Bool-cases (is_awake t s)) [
  | inl awake ↦ rw awake (flush_after-IsFollowed m t s w later h).1
  | inr asleep ↦ rw asleep (later-IsFollowed m t.now s later h)
]

run-IsFollowed :
    (m : ℕ) (es : List Event) (s : Store)
    → IsTimely m es
    → IsFollowed m s
    → (now : ℕ) × (m ≤ now) × IsFollowed now (run es s)
unfolding run
run-IsFollowed m [] s timely h = (m, omega arith, h)
run-IsFollowed m (e ∷ es) s (w, later, rest) h =
    let (now, le, followed) =
      run-IsFollowed (tick_of e).now es (step e s) rest (step-IsFollowed m e s w later h) in
    (now, omega arith, followed)

-- The first write of a store is not put off.
new_store-IsFollowed :
    (interval : ℕ) (file : Option Value) (t : Tick) (id : String) (payload : Value)
    → t.writable ≡ true
    → IsFollowed t.now (step (updated t id payload) (new_store interval file))
unfolding step update
new_store-IsFollowed interval file t id payload w =
    write_locked-IsFollowed t (changed id payload (new_store interval file)) w (omega arith) tt

-- From the first update of a new store on, with events in the order of their times whose writes go well:
-- where an instance is not yet in the file, a flush task is pending, and it wakes within one interval of the last
-- write; where nothing is dirty, the file shows the instances.
pub run-IsFollowed_from_new :
    (interval : ℕ) (file : Option Value) (t : Tick) (id : String) (payload : Value)
    (es : List Event)
    → t.writable ≡ true
    → IsTimely t.now es
    → (now : ℕ) × (t.now ≤ now)
      × IsFollowed now (run es (step (updated t id payload) (new_store interval file)))
run-IsFollowed_from_new interval file t id payload es w timely =
    run-IsFollowed t.now es (step (updated t id payload) (new_store interval file)) timely
      (new_store-IsFollowed interval file t id payload w)

flush_after-instances : (t : Tick) (s : Store) → (flush_after t s).1.instances ≡ s.instances
unfolding flush_after write_dirty write_locked
flush_after-instances t s = ground arith

step_of_idle : (t : Tick) (s : Store) → s.flush_task ≡ none → step (woken t) s ≡ s
unfolding step
step_of_idle t s idle = ground (arith, idle)

step_of_awake :
    (t : Tick) (s : Store) (deadline : ℕ)
    → s.flush_task ≡ some deadline
    → deadline ≤ t.now
    → step (woken t) s ≡ (flush_after t s).1
unfolding step
step_of_awake t s deadline waits h = ground (arith, waits)

soon :
    {task : Option ℕ} {deadline latest now : ℕ}
    → task ≡ some deadline
    → IsSoon task latest
    → latest ≤ now
    → deadline ≤ now
soon {latest = latest} e b h = let d = subst (λ o. IsSoon o latest) e b in omega arith

-- Where the store is followed, an event one interval after the last write at which the flush task may
-- wake, and at which the file can be written, leaves the latest instances in the file.
pub step-IsShown :
    (m : ℕ) (t : Tick) (s : Store)
    → IsFollowed m s
    → t.writable ≡ true
    → m ≤ t.now
    → s.last_write_time + s.minimum_write_interval ≤ t.now
    → IsShown (step (woken t) s).file s.instances
step-IsShown m t s (a, b, c, d) w later due =
    let (clean, followed) = flush_after-IsFollowed m t s w later (a, b, c, d) in
    elim (Option-cases s.flush_task) [
      | inl idle ↦ elim (Bool-cases s.dirty) [
        | inl dirty ↦ absurd (ground (arith, (c dirty).1, idle))
        | inr tidy ↦ subst (λ e. IsShown e.file s.instances) (sym (step_of_idle t s idle)) (d tidy)
      ]
      | inr (deadline, waits) ↦
          subst (λ e. IsShown e.file s.instances)
            (sym (step_of_awake t s deadline waits (soon waits b due)))
            (subst (IsShown (flush_after t s).1.file) (flush_after-instances t s)
              (followed.3 clean))
    ]
