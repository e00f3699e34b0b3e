-- ===== src/Tests/Service.antt =====
-- telemetry.py, monitor.py, service.py, api.py, relay_worker.py and diagnostics.py: runs on concrete inputs.
use printer_hmi_remote.Prelude.{
  ℕ, ◌+◌, ◌≤◌, ◌≡◌, refl, Bool, true, false, Option, none, some, List, [], ◌∷◌, ◌==◌, if◌then◌else◌,
  arith, ok, other, ◌⊎◌,
}
use printer_hmi_remote.Prelude.Int.{pos}
use printer_hmi_remote.Json
use printer_hmi_remote.Json.{
  Value, null, bool, int, str, obj, nil, Fields, end, field, get, lookup, insert,
}
use printer_hmi_remote.Json.Laws.{IsJson, IsJsonFields}
use printer_hmi_remote.Codec.Base64.{Bytes}
use printer_hmi_remote.Platform.{Platform}
use printer_hmi_remote.Tests.Toy.{toy}
use printer_hmi_remote.Transport.Link.{os_error}
use printer_hmi_remote.Transport.Retry
use printer_hmi_remote.Service.Telemetry.{merge_status}
use printer_hmi_remote.Service.Telemetry.Merge.{IsMerge, merge_status-IsMerge}
use printer_hmi_remote.Service.Monitor.{Frame, wait_reply, result_of, read_message}
use printer_hmi_remote.Service.Monitor.Answers.{wait_reply-answers}
use printer_hmi_remote.Service.Store.{
  Store, Tick, Event, updated, flushed, woken, step, run, new_store, update, document,
}
use printer_hmi_remote.Service.Store.Follows.{IsShown, IsFollowed}
use printer_hmi_remote.Service.Store.Runs.{run-IsFollowed_from_new, step-IsShown}
use printer_hmi_remote.Service.Forever.{Printer, feed, monitor_pass}
use printer_hmi_remote.Service.Forever.Ends.{lookup-monitor_pass}
use printer_hmi_remote.Service.LocalApi
use printer_hmi_remote.Service.LocalApi.{Api, handle_client, result_document, request_document}
use printer_hmi_remote.Service.LocalApi.Answers.{IsRequest, handle_client-IsRequest}
use printer_hmi_remote.Service.LocalApi.Queries.{params_of, handle_client-update}
use printer_hmi_remote.Service.Worker
use printer_hmi_remote.Service.Worker.{Worker, Round, Sender}
use printer_hmi_remote.Service.Worker.Counts.{total, run-total}
use printer_hmi_remote.Service.Diagnostics.{Texts, printers}
use printer_hmi_remote.Service.Diagnostics.Anonymous.{IsAnonymous, printers-IsAnonymous}

abbrev status : Fields
status =
    field "extruder" (obj (field "temperature" (int (pos 20)) (field "target" (int (pos 60)) end)))
      end

abbrev changes : Fields
changes =
    field "extruder" (obj (field "temperature" (int (pos 21)) end))
      (field "fan" (obj (field "speed" (int (pos 1)) end)) end)

changes-IsJson : IsJsonFields changes
unfolding IsJson lookup
changes-IsJson = (refl, (refl, tt, tt), (refl, (refl, tt, tt), tt))

merge_status-IsMerge_example :
    IsMerge
      (lookup "extruder" status)
      (lookup "extruder" changes)
      (lookup "extruder" (merge_status status changes))
merge_status-IsMerge_example = merge_status-IsMerge "extruder" status changes changes-IsJson

abbrev query : Fields
query = request_document "instance.get" (some (params_of "printer"))

abbrev reply : Fields
reply = field "id" (int (pos 2)) (field "result" (obj status) end)

-- A line is read by its first byte.
abbrev loads : Bytes → Option Value
loads (b ∷ _) =
    if b == 1
    then some (obj query)
    else if b == 2
    then some (obj reply)
    else some (obj (field "method" (str "notify_status_update") end))
loads [] = none

abbrev platform : Platform
platform = toy loads

abbrev frame : ℕ → Frame
frame b = record { at_time = "now"; raw = b ∷ [] }

notice_read : read_message platform (frame 3) ≡ ok (field "method" (str "notify_status_update") end)
unfolding read_message
notice_read = refl

reply_read : read_message platform (frame 2) ≡ ok reply
unfolding read_message
reply_read = refl

notice_differs :
    Json.py_eq (get "id" (field "method" (str "notify_status_update") end)) (int (pos 2)) ≡ false
unfolding Json.py_eq lookup
notice_differs = refl

reply_same : Json.py_eq (get "id" reply) (int (pos 2)) ≡ true
unfolding Json.py_eq lookup
reply_same = refl

wait_reply-answers_example :
    wait_reply platform 2 (frame 3 ∷ frame 2 ∷ frame 3 ∷ [])
    ≡ (result_of platform reply, frame 3 ∷ [])
wait_reply-answers_example =
    wait_reply-answers platform 2 (frame 3 ∷ []) (frame 3 ∷ []) (frame 2) reply
      ((field "method" (str "notify_status_update") end, notice_read, notice_differs), tt)
      reply_read reply_same

abbrev tick : ℕ → Tick
tick now = record { now = now; stamp = "now"; writable = true }

abbrev events : List Event
events =
    updated (tick 2) "printer" (obj status)
    ∷ updated (tick 9) "printer" (obj changes)
    ∷ woken (tick 13)
    ∷ flushed (tick 14)
    ∷ []

run-IsFollowed_from_new_example :
    (now : ℕ) × (1 ≤ now)
    × IsFollowed now (run events (step (updated (tick 1) "printer" (obj end)) (new_store 10 none)))
run-IsFollowed_from_new_example =
    run-IsFollowed_from_new 10 none (tick 1) "printer" (obj end) events refl
      (refl, omega arith, (refl, omega arith, (refl, omega arith, (refl, omega arith, tt))))

-- A store that has not written its last update.
abbrev waiting : Store
waiting = record {
  minimum_write_interval = 10;
  instances = field "printer" (obj status) end;
  dirty = true;
  last_write_time = 1;
  flush_task = some 11;
  file = none;
}

step-IsShown_example : IsShown (step (woken (tick 11)) waiting).file waiting.instances
step-IsShown_example =
    step-IsShown 2 (tick 11) waiting
      (omega arith, omega arith, λ dirty. (11, refl), λ clean. absurd (ground arith)) refl
      (omega arith) (omega arith)

abbrev api : Api
api = record { catalog = nil; version = "0.1"; uptime = int (pos 1) }

ends : LocalApi.ends_line (1 ∷ 10 ∷ []) ≡ true
unfolding LocalApi.ends_line
ends = refl

answered :
    get "ok" (handle_client platform api (tick 3) waiting 1000 (some 1000) (1 ∷ 10 ∷ []))
    ≡ bool true
unfolding LocalApi.handle_client LocalApi.handle_request LocalApi.response LocalApi.dispatch
    LocalApi.by_method LocalApi.instance_get LocalApi.require_same_user LocalApi.ends_line
    LocalApi.request_document document lookup
answered = refl

handle_client-IsRequest_example : IsRequest platform 1000 (some 1000) (1 ∷ 10 ∷ [])
handle_client-IsRequest_example =
    handle_client-IsRequest platform api (tick 3) waiting 1000 (some 1000) (1 ∷ 10 ∷ []) answered

handle_client-update_example :
    handle_client platform api
      (tick 4)
      (update (tick 3) "printer" (obj changes) waiting).1
      1000
      (some 1000)
      (1 ∷ 10 ∷ [])
    ≡ result_document (obj changes)
handle_client-update_example =
    handle_client-update platform api (tick 3) (tick 4) waiting 1000 (1 ∷ 10 ∷ []) "printer" changes
      (refl, refl, ends) refl refl

abbrev printer : Printer
printer = record { instance_id = "printer"; socket_path = "moonraker.sock" }

abbrev passes : List (Tick × Fields)
passes = (tick 5, changes) ∷ (tick 6, status) ∷ []

lookup-monitor_pass_example :
    (((feed printer (λ e. "lost") passes (other "closed") waiting).0 ≡ other "closed")
      ⊎ ((feed printer (λ e. "lost") passes (other "closed") waiting).0 ≡ os_error))
    × (lookup "printer"
          (monitor_pass printer (λ e. "lost") passes (other "closed") (tick 7) waiting).1.instances
        ≡ some (
            obj (
              field "instance_id" (str "printer") (
                field "socket_path" (str "moonraker.sock") (
                  field "connected"
                    (bool false)
                    (field "captured_at" (str "now") (field "error" (str "lost") end)))))))
lookup-monitor_pass_example =
    lookup-monitor_pass printer (λ e. "lost") "printer" passes (other "closed") (tick 7) waiting

-- A relay that always acknowledges.
abbrev send : Sender (Unit {0})
send snapshot s = (ok (field "sequence" (int (pos 1)) end), s)

abbrev worker : Worker (Unit {0})
worker = record {
  relay_id = "relay";
  connector = tt;
  success_count = 0;
  failure_count = 0;
  state = none;
}

abbrev round : Fields → Bool → Round
round response writable = record { response = ok response; stamp = "now"; writable = writable }

abbrev rounds : List Round
rounds =
    round (result_document (obj status)) true
    ∷ round end true
    ∷ round (result_document (obj status)) false
    ∷ []

abbrev after : Worker (Unit {0})
after = (Worker.run send rounds worker).1

rounds_go_on : (Worker.run send rounds worker).0 ≡ ok tt
unfolding Worker.run Worker.run_once Worker.relay Worker.settle Worker.write_state
    Worker.fetch_snapshot Worker.is_expected Retry.send_with_retries Retry.retry_delays Json.truthy
    lookup
rounds_go_on = refl

run-total_example : total (Worker.run send rounds worker).1 ≡ total worker + 3
run-total_example = run-total send rounds worker rounds_go_on

abbrev texts : Texts
texts = record {
  str_of = λ v. "text";
  number = λ n. "n";
  replace = λ text old new. text;
  home = "/";
  substitute = λ text. text;
}

abbrev item : Fields
item =
    field "instance_id" (str "printer")
      (field "hostname" (str "garage") (field "reachable" (bool true) end))

printers-IsAnonymous_example : IsAnonymous texts 1 (printers texts (item ∷ []) status)
printers-IsAnonymous_example = printers-IsAnonymous texts (item ∷ []) status
