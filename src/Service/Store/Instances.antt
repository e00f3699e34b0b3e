-- ===== src/Service/Store/Instances.antt =====
-- service.py: what an update of `SnapshotStore` shows of each instance, whether it is written or not.
use printer_hmi_remote.Prelude.{String, ◌≡◌, some, arith, Error, err, if◌then◌else◌, str_eq}
use printer_hmi_remote.Json.{Value, lookup, insert}
use printer_hmi_remote.Json.Laws.{lookup-insert}
use printer_hmi_remote.Transport.Link.{os_error}
use printer_hmi_remote.Service.Store.{Store, Tick, update, write_locked}

pub update-instances :
    (t : Tick) (id : String) (payload : Value) (s : Store)
    → (update t id payload s).1.instances ≡ insert id payload s.instances
unfolding update write_locked
update-instances t id payload s = ground arith

pub lookup-update :
    (t : Tick) (id other : String) (payload : Value) (s : Store)
    → lookup other (update t id payload s).1.instances
      ≡ (if str_eq id other then some payload else lookup other s.instances)
lookup-update t id other payload s =
    rw (update-instances t id payload s) (lookup-insert id other payload s.instances)

pub update-raises :
    (t : Tick) (id : String) (payload : Value) (s : Store) (e : Error)
    → (update t id payload s).0 ≡ err e
    → e ≡ os_error
unfolding update write_locked
update-raises t id payload s e h = ground arith
