-- ===== src/Registry/Laws.antt =====
-- relay_registry.py: what the methods of the registry promise each other.
use printer_hmi_remote.Prelude.{
  ℕ, ◌≤◌, ◌+◌, String, ◌≡◌, Bool, true, false, some, arith, str_eq, eq_iff, ok, err, value, ◌-◌,
  ◌↔◌, eq_refl, leb→le, le→leb, if◌then◌else◌,
}
use printer_hmi_remote.Json.{Fields, int, str, obj, end, field, member}
use printer_hmi_remote.Prelude.Int.{pos}
use printer_hmi_remote.Codec.Time.{timestamp}
use printer_hmi_remote.Dict
use printer_hmi_remote.Dict.{lookup-insert}
use printer_hmi_remote.Platform.{Platform}
use printer_hmi_remote.Registry.{
  Registry, sessions, session_opened, session_closed, publish, snapshot, is_online, record_document,
  new_record,
}

pub sessions-session_opened :
    (d e : String) (r : Registry)
    → sessions e (session_opened d r) ≡ (if str_eq d e then sessions d r + 1 else sessions e r)
unfolding sessions session_opened
sessions-session_opened d e r =
    ground (arith, lookup-insert d e (sessions d r + 1) r.active_sessions)

pub sessions-session_closed :
    (d e : String) (r : Registry)
    → sessions e (session_closed d r) ≡ (if str_eq d e then sessions d r - 1 else sessions e r)
unfolding sessions session_closed
sessions-session_closed d e r =
    ground (arith, lookup-insert d e (sessions d r - 1) r.active_sessions)

-- A session that is opened and closed leaves the count of every device as it was.
pub session_closed-session_opened :
    (d e : String) (r : Registry)
    → sessions e (session_closed d (session_opened d r)) ≡ sessions e r
session_closed-session_opened d e r = ground (
  arith,
  eq_refl d,
  eq_iff d e,
  sessions-session_closed d e (session_opened d r),
  sessions-session_opened d e r,
  sessions-session_opened d d r,
)

module _ (p : Platform) (d : String) (sequence : ℕ) (content : Fields) (now : ℕ)
    (fails : Bool) where
  pub records-publish :
      (r : Registry)
      → (publish p d sequence content now fails r).1.records ≡ (
          if member d r.device_ids
          then Dict.insert d (new_record p d sequence content now) r.records
          else r.records)
  unfolding publish
  records-publish r = ground arith

  pub device_ids-publish :
      (r : Registry) → (publish p d sequence content now fails r).1.device_ids ≡ r.device_ids
  unfolding publish
  device_ids-publish r = ground arith

  pub active_sessions-publish :
      (r : Registry)
      → (publish p d sequence content now fails r).1.active_sessions ≡ r.active_sessions
  unfolding publish
  active_sessions-publish r = ground arith

  publish-enrolled :
      (r : Registry)
      → (publish p d sequence content now fails r).0 ≡ ok tt
      → member d r.device_ids ≡ true
  unfolding publish
  publish-enrolled r h = ground arith

  lookup-records-publish :
      (e : String) (r : Registry)
      → member d r.device_ids ≡ true
      → Dict.lookup e (publish p d sequence content now fails r).1.records ≡ (
          if str_eq d e
          then some (new_record p d sequence content now)
          else Dict.lookup e r.records)
  lookup-records-publish e r h =
      rw (records-publish r)
        (rw h (lookup-insert d e (new_record p d sequence content now) r.records))

  -- After a `publish` that returns, `snapshot` shows for the device the published snapshot and sequence
  -- number with the time of the publication, and for every other device what it showed before.
  pub snapshot-publish :
      (e : String) (r : Registry)
      → (publish p d sequence content now fails r).0 ≡ ok tt
      → snapshot e (publish p d sequence content now fails r).1 ≡ (
          if str_eq d e
          then some (
              field "device_id" (str d) (
                field "sequence" (int (pos sequence)) (
                  field "received_at"
                    (str (timestamp p now))
                    (field "snapshot" (obj content) end))))
          else snapshot e r)
  unfolding snapshot record_document
  snapshot-publish e r h = ground (arith, lookup-records-publish e r (publish-enrolled r h))

  -- A device is online from when its snapshot was published until the stale interval has passed, and
  -- not after.
  pub is_online-publish :
      (r : Registry) (later : ℕ)
      → (publish p d sequence content now fails r).0 ≡ ok tt
      → now ≤ later
      → (is_online p later r.stale_after
            (Dict.lookup d (publish p d sequence content now fails r).1.records)
          ≡ true)
        ↔ (later ≤ now + r.stale_after)
  unfolding is_online
  is_online-publish r later h t = rw (lookup-records-publish d r (publish-enrolled r h)) (
      rw (eq_refl d)
        (λ b. omega (arith, leb→le (later - now) r.stale_after b), λ l. le→leb _ _ (omega arith)))

  -- A device that is not enrolled is refused, and nothing of the registry changes.
  pub publish-refuses :
      (r : Registry)
      → member d r.device_ids ≡ false
      → publish p d sequence content now fails r ≡ (err (value "device is not enrolled"), r)
  unfolding publish
  publish-refuses r h = rw h
