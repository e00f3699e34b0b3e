-- ===== src/Service/Monitor.antt =====
-- monitor.py: requests to Moonraker and the stream of snapshots, over the messages that arrive.
pub mod Answers
use printer_hmi_remote.Prelude.{
  ℕ, ◌+◌, String, Bool, true, false, not, Option, none, some, List, [], ◌∷◌, ◌++◌, Error, other,
  Result, ok, err, need, ◌>>=◌, ◌>>◌, if◌then◌else◌,
}
use printer_hmi_remote.Prelude.Int.{pos}
use printer_hmi_remote.Json.{
  Value, null, int, str, arr, obj, Items, nil, cons, Fields, end, field, get, lookup, has, as_dict,
  py_eq, is_text,
}
use printer_hmi_remote.Codec.Base64.{Bytes}
use printer_hmi_remote.Platform.{Platform}
use printer_hmi_remote.Service.Telemetry.{subscription_for, merge_status, normalized_status}

-- A frame, less the byte that ends it, and the time when it is read.
pub record Frame : Type 0 where
  pub at_time : String
  pub raw : Bytes

-- What `readuntil` raises when the peer has closed.
abbrev pub closed : Error
closed = other "IncompleteReadError"

abbrev pub protocol_error : Error
protocol_error = other "MoonrakerProtocolError"

module _ (p : Platform) where
  -- `read_message`
  unfoldable pub read_message : Frame → Result Fields
  read_message frame = do
    message ← need (p.json_loads frame.raw) protocol_error
    need (as_dict message) protocol_error

  abbrev pub result_of : Fields → Result Fields
  result_of message =
      if has "error" message
      then err protocol_error
      else need (as_dict (get "result" message)) protocol_error

  -- The loop of `request`: messages with other identifiers are passed over.
  unfoldable pub wait_reply : ℕ → List Frame → Result Fields × List Frame
  wait_reply id [] = (err closed, [])
  wait_reply id (frame ∷ frames) =
      let rest = wait_reply id frames in
      elim (read_message frame) [
        | err e ↦ (err e, frames)
        | ok message ↦
            if py_eq (get "id" message) (int (pos id)) then (result_of message, frames) else rest
      ]

  unfoldable pub request_document : String → ℕ → Option Value → Value
  request_document method id params = obj (
      field "jsonrpc" (str "2.0") (
        field "method" (str method)
          (field "id" (int (pos id)) (elim params [ none ↦ end | some v ↦ field "params" v end ]))))

  -- `_snapshot`
  unfoldable pub snapshot_of : String → Fields → Value → Result Fields
  snapshot_of now status eventtime = do
    normalized ← normalized_status status
    ok (
        field "schema_version" (int (pos 1)) (
          field "captured_at" (str now)
            (field "eventtime" eventtime (field "status" normalized end))))

  abbrev params_of : Option Value → Items
  params_of none = nil
  params_of (some v) = elim v [ arr xs ↦ xs | _ ↦ nil ]

  abbrev head_or_null : Items → Value
  head_or_null nil = null
  head_or_null (cons x xs) = x

  abbrev changes_in : Items → Option (Fields × Value)
  changes_in nil = none
  changes_in (cons x xs) = elim (as_dict x) [ none ↦ none | some fs ↦ some (fs, head_or_null xs) ]

  -- What a message says of the status and when, if it is a status update.
  unfoldable pub changes_of : Fields → Option (Fields × Value)
  changes_of message =
      if is_text "notify_status_update" (get "method" message)
      then changes_in (params_of (lookup "params" message))
      else none

  abbrev yielded : Result Fields → List Fields × Error → List Fields × Error
  yielded (ok snapshot) (later, e) = (snapshot ∷ later, e)
  yielded (err e) rest = ([], e)

  -- The loop of `snapshots`: what it yields before it raises.
  unfoldable pub follow : Fields → List Frame → List Fields × Error
  follow status [] = ([], closed)
  follow status (frame ∷ frames) =
      let passed_over = follow status frames in
      elim (read_message frame) [
        | err e ↦ ([], e)
        | ok message ↦ elim (changes_of message) [
          | none ↦ passed_over
          | some update ↦
              let status' = merge_status status update.0 in
              yielded (snapshot_of frame.at_time status' update.1) (follow status' frames)
        ]
      ]

  abbrev names_in : Items → List String
  names_in nil = []
  names_in (cons x xs) = let rest = names_in xs in elim x [ str s ↦ s ∷ rest | _ ↦ rest ]

  -- `object_result.get("objects", [])`, which has to be a list.
  unfoldable pub objects_in : Fields → Result (List String)
  objects_in result = elim (lookup "objects" result) [
    | none ↦ ok []
    | some v ↦ elim v [ arr xs ↦ ok (names_in xs) | _ ↦ err protocol_error ]
  ]

  abbrev status_in : Fields → Fields
  status_in initial = elim (as_dict (get "status" initial)) [ none ↦ end | some fs ↦ fs ]

  abbrev subscribed : String → Result Fields × List Frame → List Fields × Error
  subscribed now (err e, frames) = ([], e)
  subscribed now (ok initial, frames) =
      let status = merge_status end (status_in initial) in
      yielded (snapshot_of now status (get "eventtime" initial)) (follow status frames)

  -- The requests that `snapshots` sends, with the identifiers 1 and 2, and what it yields. `now` is
  -- when the subscription is answered.
  unfoldable pub snapshots : String → List Frame → List Value × List Fields × Error
  unfolding wait_reply objects_in follow request_document
  snapshots now frames =
      let list = request_document "printer.objects.list" 1 none in
      let (listed, after) = wait_reply 1 frames in
      elim (listed >>= objects_in) [
        | err e ↦ (list ∷ [], [], e)
        | ok names ↦
            let subscribe =
              request_document "printer.objects.subscribe" 2
                (some (obj (field "objects" (obj (subscription_for names)) end))) in
            let (taken, e) = subscribed now (wait_reply 2 after) in
            (list ∷ subscribe ∷ [], taken, e)
      ]
