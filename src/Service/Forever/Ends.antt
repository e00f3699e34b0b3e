-- ===== src/Service/Forever/Ends.antt =====
-- service.py: what a pass of `monitor_forever` leaves in the store, however the stream ends.
use printer_hmi_remote.Prelude.{
  String, ◌≡◌, refl, ◌∙◌, false, Bool-cases, ◌⊎◌, inl, inr, List, [], ◌∷◌, some, Error, Result, ok,
  err, if◌then◌else◌, str_eq,
}
use printer_hmi_remote.Json.{bool, str, obj, Fields, end, field, lookup}
use printer_hmi_remote.Service.Store.{Store, Tick}
use printer_hmi_remote.Service.Store.Instances.{lookup-update, update-raises}
use printer_hmi_remote.Transport.Link.{os_error}
use printer_hmi_remote.Service.Forever.{
  Printer, connected_payload, failed_payload, update_with, feed, monitor_pass,
}

module _ (printer : Printer) (describe : Error → String) (other : String) where
  module _ (foreign : str_eq printer.instance_id other ≡ false) where
    update_with-keeps :
        (t : Tick) (payload : Fields) (s : Store)
        → lookup other (update_with printer describe t payload s).1.instances
          ≡ lookup other s.instances
    update_with-keeps t payload s =
        rw (lookup-update t printer.instance_id other (obj payload) s, foreign) refl

    either_way :
        (outcome : Result (Unit {0})) (later : Error × Store) (s s' : Store)
        → lookup other later.1.instances ≡ lookup other s'.instances
        → lookup other s'.instances ≡ lookup other s.instances
        → lookup other
            (elim outcome as (λ _. Error × Store) [ ok u ↦ later | err e ↦ (e, s') ]).1.instances
          ≡ lookup other s.instances
    either_way (ok u) later s s' h k = h ∙ k
    either_way (err e) later s s' h k = k

    feed-keeps :
        (snapshots : List (Tick × Fields)) (ended : Error) (s : Store)
        → lookup other (feed printer describe snapshots ended s).1.instances
          ≡ lookup other s.instances
    unfolding feed
    feed-keeps [] ended s = refl
    feed-keeps ((t, snapshot) ∷ snapshots) ended s =
        let done = update_with printer describe t (connected_payload printer snapshot) s in
        either_way done.0 (feed printer describe snapshots ended done.1) s done.1
          (feed-keeps snapshots ended done.1)
          (update_with-keeps t (connected_payload printer snapshot) s)

  update_with-raises :
      (t : Tick) (payload : Fields) (s : Store) (e : Error)
      → (update_with printer describe t payload s).0 ≡ err e
      → e ≡ os_error
  update_with-raises t payload s e h = update-raises t printer.instance_id (obj payload) s e h

  one_end :
      (outcome : Result (Unit {0})) (later : Error × Store) (s' : Store) (ended : Error)
      → ((e : Error) → outcome ≡ err e → e ≡ os_error)
      → (later.0 ≡ ended) ⊎ (later.0 ≡ os_error)
      → let after = elim outcome as (λ _. Error × Store) [ ok u ↦ later | err e ↦ (e, s') ] in
        (after.0 ≡ ended) ⊎ (after.0 ≡ os_error)
  one_end (ok u) later s' ended h k = k
  one_end (err e) later s' ended h k = inr (h e refl)

  feed-ends :
      (snapshots : List (Tick × Fields)) (ended : Error) (s : Store)
      → ((feed printer describe snapshots ended s).0 ≡ ended)
        ⊎ ((feed printer describe snapshots ended s).0 ≡ os_error)
  unfolding feed
  feed-ends [] ended s = inl refl
  feed-ends ((t, snapshot) ∷ snapshots) ended s =
      let payload = connected_payload printer snapshot in
      let done = update_with printer describe t payload s in
      one_end done.0 (feed printer describe snapshots ended done.1) done.1 ended
        (λ e failed. update_with-raises t payload s e failed) (feed-ends snapshots ended done.1)

  -- Whichever snapshots arrive: after a pass of `monitor_forever` the store shows the printer as not
  -- connected, with the text of the exception that ended the pass, which is the one of the stream or the
  -- one of a file that could not be written, and shows for every other instance what it showed before.
  pub lookup-monitor_pass :
      (snapshots : List (Tick × Fields)) (ended : Error) (t : Tick) (s : Store)
      → let e = (feed printer describe snapshots ended s).0 in
        ((e ≡ ended) ⊎ (e ≡ os_error))
        × (lookup other (monitor_pass printer describe snapshots ended t s).1.instances ≡ (
            if str_eq printer.instance_id other
            then some (
                obj (
                  field "instance_id" (str printer.instance_id) (
                    field "socket_path" (str printer.socket_path) (
                      field "connected" (bool false) (
                        field "captured_at"
                          (str t.stamp)
                          (field "error" (str (describe e)) end))))))
            else lookup other s.instances))
  unfolding monitor_pass failed_payload
  lookup-monitor_pass snapshots ended t s =
      let fed = feed printer describe snapshots ended s in
      (
        feed-ends snapshots ended s,
        lookup-update t printer.instance_id other
              (obj (failed_payload printer t.stamp (describe fed.0))) fed.1
            ∙ elim (Bool-cases (str_eq printer.instance_id other)) [
              | inl own ↦ rw own refl
              | inr foreign ↦ rw foreign (feed-keeps foreign snapshots ended s)
            ],
      )
