-- ===== src/Service/Forever.antt =====
-- service.py: `monitor_forever`, which feeds the store from one printer's stream of snapshots. Cancellation,
-- which it passes on, is not one of the exceptions here, and neither is the sleep between two passes modelled.
pub mod Ends
use printer_hmi_remote.Prelude.{String, false, true, List, [], ◌∷◌, Error, ok, err}
use printer_hmi_remote.Action.{Action}
use printer_hmi_remote.Json.{null, bool, str, obj, Fields, end, field}
use printer_hmi_remote.Service.Telemetry
use printer_hmi_remote.Service.Store
use printer_hmi_remote.Service.Store.{Store, Tick, write_locked}

-- What is known of the printer: its identifier and `str(socket_path)`.
pub record Printer : Type 0 where
  pub instance_id : String
  pub socket_path : String

-- The payload of a snapshot, whose own fields come last.
unfoldable pub connected_payload : Printer → Fields → Fields
connected_payload printer snapshot =
    Telemetry.update
      (field "instance_id" (str printer.instance_id) (
        field "socket_path" (str printer.socket_path)
          (field "connected" (bool true) (field "error" null end))))
      snapshot

-- The payload of a failure, with the text of the exception.
unfoldable pub failed_payload : Printer → String → String → Fields
failed_payload printer now message = field "instance_id" (str printer.instance_id) (
    field "socket_path" (str printer.socket_path) (
      field "connected" (bool false)
        (field "captured_at" (str now) (field "error" (str message) end))))

module _ (printer : Printer) (describe : Error → String) where
  abbrev update_with : Tick → Fields → Action Store Unit
  update_with t payload = Store.update t printer.instance_id (obj payload)

  -- The store is updated with each snapshot, until the stream or an update raises.
  unfoldable pub feed : List (Tick × Fields) → Error → Store → Error × Store
  unfolding connected_payload
  feed [] ended s = (ended, s)
  feed ((t, snapshot) ∷ snapshots) ended s =
      let (outcome, s') = update_with t (connected_payload printer snapshot) s in
      let later = feed snapshots ended s' in elim outcome [ ok u ↦ later | err e ↦ (e, s') ]

  -- One pass of the loop: the snapshots, the exception that ends them, and the update that tells of it.
  unfoldable pub monitor_pass : List (Tick × Fields) → Error → Tick → Action Store Unit
  unfolding feed failed_payload
  monitor_pass snapshots ended t s =
      let (e, s') = feed snapshots ended s in
      update_with t (failed_payload printer t.stamp (describe e)) s'
