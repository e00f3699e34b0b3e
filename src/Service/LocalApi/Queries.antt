-- ===== src/Service/LocalApi/Queries.antt =====
-- service.py, api.py and relay_worker.py together: what a client reads of the store through the interface.
use printer_hmi_remote.Prelude.{
  ℕ, String, ◌≡◌, refl, eq_refl, str_eq, ==_refl, true, false, not, ◌==◌, ltb, none, some, length,
  arith, ok,
}
use printer_hmi_remote.Json.{Value, int, truthy, str, obj, Fields, end, field, lookup}
use printer_hmi_remote.Codec.Base64.{Bytes}
use printer_hmi_remote.Platform.{Platform}
use printer_hmi_remote.Service.Store.{Store, Tick, document, update}
use printer_hmi_remote.Service.Store.Instances.{lookup-update}
use printer_hmi_remote.Service.LocalApi.{
  Api, dispatch, by_method, instance_get, instances_in, handle_request, handle_client, response,
  result_document, require_same_user, ends_line, is_overrun, max_request_bytes, request_document,
}
use printer_hmi_remote.Prelude.Int.{pos}
use printer_hmi_remote.Service.Worker.{fetch_snapshot}

-- A line that the interface reads.
abbrev pub IsLine : Bytes → Type 0
IsLine raw =
    (length raw == 0 ≡ false)
    × (ltb max_request_bytes (length raw) ≡ false)
    × (ends_line raw ≡ true)

instances_in-document : (t : Tick) (s : Store) → instances_in (document t s) ≡ s.instances
unfolding document lookup
instances_in-document t s = refl

abbrev pub params_of : String → Fields
params_of id = field "instance_id" (str id) end

instance_get-update :
    (t t' : Tick) (s : Store) (id : String) (payload : Fields)
    → not (str_eq id "") ≡ true
    → instance_get (obj (params_of id)) (document t' (update t id (obj payload) s).1)
      ≡ ok (obj payload)
unfolding instance_get lookup
instance_get-update t t' s id payload named =
    let e : str_eq id "" ≡ false = ground arith in
    rw
      (
        e,
        instances_in-document t' (update t id (obj payload) s).1,
        lookup-update t id id (obj payload) s,
        eq_refl id,
      )
      refl

dispatched :
    (api : Api) (t : Tick) (s : Store) (id : String) (v : Value)
    → instance_get (obj (params_of id)) (document t s) ≡ ok v
    → dispatch api t s (obj (request_document "instance.get" (some (params_of id)))) ≡ ok v
unfolding dispatch by_method request_document lookup
dispatched api t s id v h = h

abbrev document_fields : Tick → Store → Fields
document_fields t s =
    field "schema_version" (int (pos 1))
      (field "generated_at" (str t.stamp) (field "instances" (obj s.instances) end))

document_obj : (t : Tick) (s : Store) → document t s ≡ obj (document_fields t s)
unfolding document
document_obj t s = refl

snapshot_dispatched :
    (api : Api) (t : Tick) (s : Store)
    → dispatch api t s (obj (request_document "snapshot" none)) ≡ ok (document t s)
unfolding dispatch by_method request_document lookup
snapshot_dispatched api t s = refl

fetched :
    (t : Tick) (s : Store)
    → fetch_snapshot (ok (result_document (document t s))) ≡ ok (document_fields t s)
unfolding fetch_snapshot document lookup truthy
fetched t s = refl

short-is_overrun :
    (raw : Bytes) → ltb max_request_bytes (length raw) ≡ false → is_overrun raw ≡ false
short-is_overrun raw short = ground arith

module _ (p : Platform) where
  handle_client-dispatch :
      (api : Api) (t : Tick) (s : Store) (own : ℕ) (raw : Bytes) (request result : Value)
      → IsLine raw
      → p.json_loads raw ≡ some request
      → dispatch api t s request ≡ ok result
      → handle_client p api t s own (some own) raw ≡ result_document result
  unfolding handle_client handle_request response require_same_user
  handle_client-dispatch api t s own raw request result (some_bytes, short, whole) reads gives =
      rw (==_refl own, short-is_overrun raw short, some_bytes, short, whole, reads, gives) refl

  -- The interface answers a query for an instance with what the store was last updated with: for the
  -- agent's own user, where the name is not empty and the line of the query reads as the document that
  -- `api_request` sends.
  pub handle_client-update :
      (api : Api) (t t' : Tick) (s : Store) (own : ℕ) (raw : Bytes) (id : String) (payload : Fields)
      → IsLine raw
      → p.json_loads raw ≡ some (obj (request_document "instance.get" (some (params_of id))))
      → not (str_eq id "") ≡ true
      → handle_client p api t' (update t id (obj payload) s).1 own (some own) raw
        ≡ result_document (obj payload)
  handle_client-update api t t' s own raw id payload line reads named =
      handle_client-dispatch api t' (update t id (obj payload) s).1 own raw
        (obj (request_document "instance.get" (some (params_of id)))) (obj payload) line reads
        (dispatched api t' (update t id (obj payload) s).1 id (obj payload)
          (instance_get-update t t' s id payload named))

  -- The snapshot that the relay worker fetches from the interface is the document of the store: for the
  -- agent's own user, where the line of the query reads as the document that `api_request` sends.
  pub fetch_snapshot-handle_client :
      (api : Api) (t : Tick) (s : Store) (own : ℕ) (raw : Bytes)
      → IsLine raw
      → p.json_loads raw ≡ some (obj (request_document "snapshot" none))
      → (doc : Fields) × (document t s ≡ obj doc)
        × (fetch_snapshot (ok (handle_client p api t s own (some own) raw)) ≡ ok doc)
  fetch_snapshot-handle_client api t s own raw line reads = (
    document_fields t s,
    document_obj t s,
    rw
        (handle_client-dispatch api t s own raw (obj (request_document "snapshot" none))
          (document t s) line reads (snapshot_dispatched api t s))
        (fetched t s),
  )
