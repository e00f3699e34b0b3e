-- ===== src/Transport/Sanitize.antt =====
-- relay_transport.py: `sanitize_snapshot`, which removes what identifies the printer, its network and
-- its jobs. Documents come from `json.loads`, so the branch for other Python objects cannot be taken.
pub mod Idempotent
pub mod Privacy
use printer_hmi_remote.Prelude.{
  ℕ, String, Bool, Option, true, false, not, ◌&&◌, none, some, List, [], ◌∷◌, ltb, leb, length,
  if◌then◌else◌, Error, transport, Result, ok, err, need, raise_if, ◌>>=◌, ◌>>◌,
}
use printer_hmi_remote.Prelude.Int.{pos}
use printer_hmi_remote.Json.{
  Value, null, bool, int, float, str, arr, obj, Items, nil, cons, Fields, end, field, lookup, get,
  member, as_dict, is_one, truthy,
}
use printer_hmi_remote.Json.Canonical.{canonical}
use printer_hmi_remote.Platform.{Platform}

abbrev pub private_snapshot_keys : List String
private_snapshot_keys =
    "address" ∷ "api_key" ∷ "filename" ∷ "host" ∷ "hostname" ∷ "ip" ∷ "message" ∷ "socket_path"
    ∷ "url" ∷ []

abbrev pub instance_keys : List String
instance_keys = "instance_id" ∷ "connected" ∷ "captured_at" ∷ "eventtime" ∷ "status" ∷ []

abbrev pub max_frame_bytes : ℕ
max_frame_bytes = 262144

-- `MAX_FRAME_BYTES // 2`
abbrev pub max_snapshot_bytes : ℕ
max_snapshot_bytes = 131072

module _ (p : Platform) where
  -- `key.lower() in PRIVATE_SNAPSHOT_KEYS`
  unfoldable pub is_private : String → Bool
  is_private key = member (p.lower key) private_snapshot_keys

  -- `_sanitize_snapshot_value`
  unfoldable mutual
    pub sanitize : Value → Value
    sanitize (arr xs) = arr (sanitize_items xs)
    sanitize (obj fs) = obj (sanitize_fields fs)
    sanitize v = v

    pub sanitize_items : Items → Items
    sanitize_items nil = nil
    sanitize_items (cons x xs) = cons (sanitize x) (sanitize_items xs)

    pub sanitize_fields : Fields → Fields
    sanitize_fields end = end
    sanitize_fields (field k v fs) =
        if is_private k then sanitize_fields fs else field k (sanitize v) (sanitize_fields fs)

  abbrev pub add_found : String → Option Value → Fields → Fields
  add_found k none rest = rest
  add_found k (some v) rest = field k (sanitize v) rest

  -- The named fields that an instance has, sanitized.
  unfoldable pub pick_fields : List String → Fields → Fields → Fields
  pick_fields [] source last = last
  pick_fields (k ∷ ks) source last = add_found k (lookup k source) (pick_fields ks source last)

  abbrev pub error_field : Bool → Fields
  error_field failed = if failed then field "error" (str "unavailable") end else end

  unfoldable pub sanitize_instance : Fields → Fields
  sanitize_instance source =
      pick_fields instance_keys source (error_field (truthy (get "error" source)))

  unfoldable pub sanitize_instances : Fields → Result Fields
  sanitize_instances end = ok end
  sanitize_instances (field instance_id source fs) =
      let rest = sanitize_instances fs in
      (do
        source_fields ← need (as_dict source) (transport "invalid snapshot instance")
        more ← rest
        ok (field instance_id (obj (sanitize_instance source_fields)) more))

  abbrev pub snapshot_document : Value → Fields → Fields
  snapshot_document generated_at instances =
      field "schema_version" (int (pos 1))
        (field "generated_at" generated_at (field "instances" (obj instances) end))

  unfoldable pub sanitize_snapshot : Value → Result Fields
  sanitize_snapshot document = do
    fs ← need (as_dict document) (transport "invalid snapshot document")
    raise_if (not (is_one (get "schema_version" fs))) (transport "invalid snapshot document")
    instances ← need (as_dict (get "instances" fs)) (transport "invalid snapshot instances")
    sanitized ← sanitize_instances instances
    let result = snapshot_document (get "generated_at" fs) sanitized
    raise_if (ltb max_snapshot_bytes (length (canonical p (obj result))))
        (transport "snapshot exceeds relay payload limit")
    ok result
