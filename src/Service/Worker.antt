-- ===== src/Service/Worker.antt =====
-- relay_worker.py: `RelayWorker`, which fetches snapshots from the local interface and relays them.
pub mod Counts
use printer_hmi_remote.Prelude.{
  ℕ, ◌+◌, String, Bool, true, false, not, ◌||◌, Option, none, some, List, [], ◌∷◌, ltb, str_eq,
  Error, transport, value, other, Result, ok, err, need, raise_if, ◌>>=◌, ◌>>◌, if◌then◌else◌,
}
use printer_hmi_remote.Prelude.Int.{pos}
use printer_hmi_remote.Action.{Action}
use printer_hmi_remote.Json.{Value, null, int, str, obj, Fields, end, field, get, truthy, as_dict}
use printer_hmi_remote.Transport.Link.{os_error}
use printer_hmi_remote.Transport.Retry.{send_with_retries}

-- `connector` is what the relay connector keeps, `state` the worker's file.
pub record Worker (S : Type 0) : Type 0 where
  pub relay_id : String
  pub connector : S
  pub success_count : ℕ
  pub failure_count : ℕ
  pub state : Option Value

-- What one round finds: the response of the local interface, the time, and whether the file can be written.
pub record Round : Type 0 where
  pub response : Result Fields
  pub stamp : String
  pub writable : Bool

abbrev pub no_snapshot : Error
no_snapshot = transport "local agent snapshot is unavailable"

-- `fetch_snapshot`
unfoldable pub fetch_snapshot : Result Fields → Result Fields
fetch_snapshot response = do
  fs ← response
  raise_if (not (truthy (get "ok" fs))) no_snapshot
  need (as_dict (get "result" fs)) no_snapshot

-- `(OSError, ValueError, RelayTransportError, asyncio.TimeoutError)`. A `value` is every ValueError, also that of
-- `json.loads`.
unfoldable pub is_expected : Error → Bool
is_expected (transport message) = true
is_expected (value message) = true
is_expected (other name) = str_eq name "OSError" || str_eq name "TimeoutError"
is_expected _ = false

-- `RelayWorker(...)`, which wants an enabled configuration.
unfoldable pub new_worker : {S : Type 0} → Bool → String → S → Result (Worker S)
new_worker enabled relay_id connector = do
  raise_if (not enabled) (transport "relay transport is disabled")
  ok (record {
    relay_id = relay_id;
    connector = connector;
    success_count = 0;
    failure_count = 0;
    state = none;
  })

-- `result.get("sequence") if result else None`
abbrev last_sequence : Option Fields → Value
last_sequence none = null
last_sequence (some result) = if truthy (obj result) then get "sequence" result else null

-- One attempt to send a snapshot, as the connector makes it.
abbrev pub Sender : Type 0 → Type 0
Sender S = Fields → Action S Fields

module _ {S : Type 0} where
  unfoldable pub state_document : Round → String → Option Fields → Worker S → Value
  state_document round status result w = obj (
      field "schema_version" (int (pos 1)) (
        field "generated_at" (str round.stamp) (
          field "status" (str status) (
            field "relay_id" (str w.relay_id) (
              field "success_count" (int (pos w.success_count)) (
                field "failure_count" (int (pos w.failure_count))
                  (field "last_sequence" (last_sequence result) end)))))))

  -- `write_state`
  unfoldable pub write_state : Round → String → Option Fields → Action (Worker S) Unit
  unfolding state_document
  write_state round status result w =
      if round.writable
      then (ok tt, record w { state = some (state_document round status result w) })
      else (err os_error, w)

  abbrev and_then : Result (Unit {0}) × Worker S → Result Fields → Result Fields × Worker S
  and_then (ok u, w) outcome = (outcome, w)
  and_then (err e, w) outcome = (err e, w)

  -- The counting of `run_once`: errors that are not expected go past it.
  unfoldable pub settle : Round → Result Fields → Action (Worker S) Fields
  unfolding write_state
  settle round (ok result) w =
      and_then
        (write_state round "connected" (some result)
          (record w { success_count = w.success_count + 1 }))
        (ok result)
  settle round (err e) w =
      if is_expected e
      then and_then
          (write_state round "unavailable" none (record w { failure_count = w.failure_count + 1 }))
          (err e)
      else (err e, w)

  -- The fetch and the sending of `run_once`, with three attempts.
  unfoldable pub relay : Sender S → Round → S → Result Fields × S
  unfolding fetch_snapshot
  relay send round s = elim (fetch_snapshot round.response) [
    | err e ↦ (err e, s)
    | ok snapshot ↦ let (r, s', slept) = send_with_retries (send snapshot) 3 s in (r, s')
  ]

  unfoldable pub run_once : Sender S → Round → Action (Worker S) Fields
  unfolding settle relay
  run_once send round w =
      let (outcome, s) = relay send round w.connector in
      settle round outcome (record w { connector = s })

  -- The loop of `run`, for as many rounds: an error that is not expected ends it.
  unfoldable pub run : Sender S → List Round → Action (Worker S) Unit
  unfolding run_once
  run send [] w = (ok tt, w)
  run send (round ∷ rounds) w =
      let (outcome, w') = run_once send round w in
      let later = run send rounds w' in
      elim outcome [ ok result ↦ later | err e ↦ if is_expected e then later else (err e, w') ]
