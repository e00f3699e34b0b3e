-- ===== src/Codec/Time.antt =====
-- `_timestamp` and `_parse_timestamp`: instants as texts that end in `Z`.
use Prim.Native.Char.{Char, code}
use Prim.Native.String.append
use printer_hmi_remote.Prelude.{
  ℕ, ◌*◌, ◌<◌, String, ◌<>◌, ◌≡◌, refl, ap, Option, none, some, ◌==◌, Error, Result, ok, err,
  if◌then◌else◌,
}
use printer_hmi_remote.Json.{Value, str}
use printer_hmi_remote.Platform.{Platform, IsSound, max_instant}

-- A duration in seconds, as microseconds.
abbrev pub seconds : ℕ → ℕ
seconds n = n * 1000000

abbrev prepend : Char → Option String → Option String
prepend c none = none
prepend c (some s) = some (String.◌∷◌ c s)

-- `value[:-1]`, where `value.endswith("Z")`.
unfoldable pub strip_z : String → Option String
strip_z String.[] = none
strip_z (String.◌∷◌ c String.[]) = if code c == b'Z' then some String.[] else none
strip_z (String.◌∷◌ c (String.◌∷◌ d s)) = prepend c (strip_z (String.◌∷◌ d s))

strip_z-append : (s : String) → strip_z (s <> "Z") ≡ some s
unfolding strip_z
strip_z-append String.[] = refl
strip_z-append (String.◌∷◌ c String.[]) = rw append.cons refl
strip_z-append (String.◌∷◌ c (String.◌∷◌ d s)) =
    rw append.cons
      (rw append.cons (ap (prepend c) (rw append.cons at (strip_z-append (String.◌∷◌ d s)))))

module _ (p : Platform) where
  -- `isoformat().replace("+00:00", "Z")` of an instant in UTC.
  unfoldable pub timestamp : ℕ → String
  timestamp t = p.iso_body t <> "Z"

  abbrev from_body : Option String → Option ℕ
  from_body none = none
  from_body (some s) = p.from_iso (s <> "+00:00")

  abbrev or_error : Option ℕ → Error → Result ℕ
  or_error none e = err e
  or_error (some t) e = ok t

  -- Each file of the program raises its own error.
  unfoldable pub parse_timestamp : Error → Value → Result ℕ
  parse_timestamp e (str s) = or_error (from_body (strip_z s)) e
  parse_timestamp e _ = err e

  pub parse_timestamp-timestamp :
      (sound : IsSound p) (e : Error) (t : ℕ)
      → t < max_instant
      → parse_timestamp e (str (timestamp t)) ≡ ok t
  unfolding parse_timestamp timestamp
  parse_timestamp-timestamp sound e t h = rw (strip_z-append (p.iso_body t), sound.from_iso-iso t h)
