-- ===== src/Receiver/Api/Health.antt =====
-- relay_receiver.py: the numbers of the `health` query.
use printer_hmi_remote.Prelude.{
  ℕ, ◌+◌, ◌-◌, String, ◌≡◌, refl, Bool, true, false, none, some, List, [], ◌∷◌, arith, leb, ltb,
  length, if◌then◌else◌, ap, suc,
}
use printer_hmi_remote.Prelude.Int.{pos}
use printer_hmi_remote.Json.{
  bool, int, str, obj, Fields, end, field, get, lookup, count, is_one, is_text,
}
use printer_hmi_remote.Dict
use printer_hmi_remote.Platform.{Platform}
use printer_hmi_remote.Codec.Base64.{Bytes}
use printer_hmi_remote.Codec.Time.{timestamp}
use printer_hmi_remote.Transport.Frame.{ends_line, is_empty}
use printer_hmi_remote.Registry.{Registry, is_online, device_document, device_documents}
use printer_hmi_remote.Receiver.Api.{online_count, dispatch, health, handle, rejected}

-- The devices that pass a test.
abbrev pub filter : (String → Bool) → List String → List String
filter f [] = []
filter f (k ∷ ks) = let rest = filter f ks in if f k then k ∷ rest else rest

-- The device has published no longer ago than the stale interval.
abbrev pub is_fresh : Registry → ℕ → String → Bool
is_fresh r now id = elim (Dict.lookup id r.records) [
  | none ↦ false
  | some e ↦ leb now (e.received_epoch + r.stale_after)
]

leb_minus : (now epoch stale : ℕ) → leb (now - epoch) stale ≡ leb now (epoch + stale)
leb_minus now epoch stale = ground arith

-- A line that the interface reads.
abbrev pub IsLine : Bytes → Type 0
IsLine raw = (is_empty raw ≡ false) × (ltb 16384 (length raw) ≡ false) × (ends_line raw ≡ true)

module _ (p : Platform) (r : Registry) (now : ℕ) where
  is_online_fresh :
      (id : String) → is_online p now r.stale_after (Dict.lookup id r.records) ≡ is_fresh r now id
  unfolding is_online
  is_online_fresh id =
      elim (Dict.lookup id r.records)
        as (λ o. is_online p now r.stale_after o ≡ elim o as (λ _. Bool) [
          | none ↦ false
          | some e ↦ leb now (e.received_epoch + r.stale_after)
        ]) [ none ↦ refl | some e ↦ leb_minus now e.received_epoch r.stale_after ]

  counts-device_documents :
      (ids : List String)
      → (count (device_documents p r now ids) ≡ length ids)
        × (online_count (device_documents p r now ids) ≡ length (filter (is_fresh r now) ids))
  unfolding device_documents device_document online_count count lookup
  counts-device_documents [] = (refl, refl)
  counts-device_documents (k ∷ ks) =
      let rest = counts-device_documents ks in
      (ap suc rest.0, ground (arith, rest.1, is_online_fresh k))

  -- The `health` query of the same user, on a line that reads as a request for it, is answered with the
  -- number of the enrolled devices and with the number of those whose last snapshot is no older than the
  -- stale interval.
  pub handle-health :
      (raw : Bytes) (request : Fields)
      → IsLine raw
      → p.json_loads raw ≡ some (obj request)
      → is_one (get "protocol_version" request) ≡ true
      → is_text "health" (get "method" request) ≡ true
      → handle p r now true raw
        ≡ field "protocol_version" (int (pos 1)) (
            field "ok" (bool true) (
              field "result"
                (obj (
                  field "generated_at" (str (timestamp p now)) (
                    field "device_count" (int (pos (length r.device_ids))) (
                      field "online_count"
                        (int (pos (length (filter (is_fresh r now) r.device_ids))))
                        end))))
                end))
  unfolding handle dispatch health
  handle-health raw request (some_bytes, short, whole) reads version asks =
      let (all, online) = counts-device_documents r.device_ids in
      rw (some_bytes, short, whole, reads) (rw (version, asks) (rw (all, online) refl))

  -- Whoever is not the same user gets the same answer, whatever is asked.
  pub handle-rejects : (raw : Bytes) → handle p r now false raw ≡ rejected
  unfolding handle
  handle-rejects raw = refl
