-- ===== src/Transport/Frame.antt =====
-- relay_transport.py: `read_frame` and `write_frame`. What a stream delivers, and what the other end
-- has been sent, are explicit.
use printer_hmi_remote.Prelude.{
  Bool, true, false, not, ◌||◌, [], ◌∷◌, ◌++◌, ◌==◌, ltb, length, transport, Result, ok, err, need,
  raise_if, ◌>>=◌, ◌>>◌,
}
use printer_hmi_remote.Json.{Fields, obj, as_dict}
use printer_hmi_remote.Json.Canonical.{canonical}
use printer_hmi_remote.Codec.Base64.{Bytes}
use printer_hmi_remote.Platform.{Platform}
use printer_hmi_remote.Transport.Sanitize.{max_frame_bytes}

-- What `reader.readline()` does: it times out, passes the limit of its buffer, or returns bytes, none
-- when the other end has closed.
pub data Incoming : Type 0 where
  timeout over_limit : Incoming
  line : Bytes → Incoming

-- `raw.endswith(b"\n")`
abbrev pub ends_line : Bytes → Bool
ends_line [] = false
ends_line (b ∷ []) = b == 10
ends_line (b ∷ c ∷ bs) = ends_line (c ∷ bs)

abbrev pub is_empty : Bytes → Bool
is_empty [] = true
is_empty (b ∷ bs) = false

module _ (p : Platform) where
  unfoldable pub read_frame : Incoming → Result Fields
  read_frame timeout = err (transport "relay frame timed out")
  read_frame over_limit = err (transport "relay frame exceeds limit")
  read_frame (line raw) = do
    raise_if (is_empty raw) (transport "relay closed the connection")
    raise_if (ltb max_frame_bytes (length raw) || not (ends_line raw))
        (transport "relay frame exceeds limit")
    document ← need (p.json_loads raw) (transport "relay frame is not valid JSON")
    need (as_dict document) (transport "relay frame must be an object")

  -- The bytes that are written.
  unfoldable pub write_frame : Fields → Result Bytes
  write_frame document = do
    let payload = canonical p (obj document) ++ (10 ∷ [])
    raise_if (ltb max_frame_bytes (length payload)) (transport "relay frame exceeds limit")
    ok payload
