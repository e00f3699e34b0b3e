-- ===== src/Configuration/Receipt.antt =====
-- relay_configuration.py: the checks of `add_receipt`, and what it makes of the devices.
use Prim.Native.Nat.{Ordering}
use Prim.Native.String.{compare}
use printer_hmi_remote.Prelude.{
  String, Bool, true, false, not, ◌&&◌, ◌||◌, Option, none, some, Error, configuration, enrollment,
  other, Result, ok, err, raise_if, ◌>>=◌, ◌>>◌, if◌then◌else◌,
}
use printer_hmi_remote.Json.{
  Value, null, str, arr, obj, Items, nil, cons, Fields, end, field, get, lookup, insert, pop, py_eq,
}
use printer_hmi_remote.Platform.{Platform}
use printer_hmi_remote.Enrollment.Verify.{verify_enrollment_receipt}
use printer_hmi_remote.Configuration.Directory.{read_json}
use printer_hmi_remote.Configuration.Load.{text_of}
use printer_hmi_remote.Configuration.Request.{fields_of}

abbrev pub no_pending : Error
no_pending = configuration "enrollment receipt does not match a pending challenge"

-- `except EnrollmentError as exc`
abbrev as_invalid_receipt : {A : Type 0} → Result A → Result A
as_invalid_receipt (ok a) = ok a
as_invalid_receipt (err (enrollment message)) = err (configuration "invalid enrollment receipt")
as_invalid_receipt (err e) = err e

-- `d[k]` of a value of any type
unfoldable pub index : String → Value → Result Value
index k (obj fs) = elim (lookup k fs) [ none ↦ err (other "KeyError") | some v ↦ ok v ]
index k _ = err (other "TypeError")

-- `d.get(k)`, for which an object or a list is no key.
unfoldable pub get_hashed : Value → Fields → Result Value
get_hashed (str k) fs = ok (get k fs)
get_hashed (arr xs) fs = err (other "TypeError")
get_hashed (obj gs) fs = err (other "TypeError")
get_hashed _ fs = ok null

abbrev pub is_null : Value → Bool
is_null v = elim v [ null ↦ true | _ ↦ false ]

unfoldable pub check_pending : Value → Fields → Result (Unit {0})
unfolding index
check_pending pending verified = do
  raise_if (is_null pending) no_pending
  device ← index "device_id" pending
  raise_if (not (py_eq device (get "device_id" verified))) no_pending
  key ← index "device_public_key" pending
  raise_if (not (py_eq key (get "device_public_key" verified))) no_pending

-- `d.get(k)` of a device, which is an object.
abbrev pub entry : String → Value → Value
entry k v = get k (fields_of v)

abbrev pub items_of : Value → Items
items_of v = elim v [ arr xs ↦ xs | _ ↦ nil ]

-- `{item["device_id"]: item for item in devices}.get(id)`
unfoldable pub find_device : Value → Items → Value
find_device id nil = null
find_device id (cons item items) =
    let rest = find_device id items in
    if is_null rest && py_eq (entry "device_id" item) id then item else rest

unfoldable pub append_item : Items → Value → Items
append_item nil v = cons v nil
append_item (cons x xs) v = cons x (append_item xs v)

unfoldable pub insert_item : Value → Items → Items
insert_item v nil = cons v nil
insert_item v (cons x xs) =
    let rest = cons x (insert_item v xs) in
    elim (compare (text_of (entry "device_id" v)) (text_of (entry "device_id" x))) [
      | Ordering.gt ↦ rest
      | _ ↦ cons v (cons x xs)
    ]

-- `devices.sort(key=lambda item: item["device_id"])`, which keeps the order of equal keys.
unfoldable pub sort_items : Items → Items
unfolding insert_item
sort_items nil = nil
sort_items (cons x xs) = insert_item x (sort_items xs)

abbrev pub device_of : Fields → Value
device_of verified = obj (
    field "device_id" (get "device_id" verified)
      (field "public_key" (get "device_public_key" verified) end))

module _ (p : Platform) where
  -- The receipt is verified and addressed to this relay.
  unfoldable pub read_verified : Option Value → Fields → Result Fields
  read_verified read state = do
    receipt ← read_json read "enrollment receipt"
    verified ← as_invalid_receipt (verify_enrollment_receipt p (obj receipt))
    raise_if
        (not (py_eq (get "relay_id" verified) (get "relay_id" state))
          || not (py_eq (get "peer_id" verified) (get "peer_id" state))
          || not (py_eq (get "peer_public_key" verified) (get "peer_public_key" state)))
        (configuration "enrollment receipt is not addressed to this relay")
    ok verified

  -- And it answers a pending challenge.
  unfoldable pub read_receipt : Option Value → Fields → Result Fields
  read_receipt read state = do
    verified ← read_verified read state
    pending ← get_hashed (get "challenge_id" verified) (fields_of (get "pending_challenges" state))
    check_pending pending verified
    ok verified

-- The state after the receipt: `pending_challenges.pop(challenge_id, None)`.
unfoldable pub without_pending : Fields → Fields → Fields
without_pending state verified =
    insert "pending_challenges"
      (obj
        (pop (text_of (get "challenge_id" verified)) (fields_of (get "pending_challenges" state))))
      state
