-- ===== src/Platform.antt =====
-- What the program takes from outside: the cryptography package, the hash functions of OpenSSL,
-- the calendar arithmetic of `datetime`, the Unicode tables and the printing of floats. Everything
-- that uses them takes a `Platform`; the laws that theorems rely on are in `IsSound`.
use printer_hmi_remote.Prelude.{ℕ, ◌<◌, String, ◌<>◌, ◌≡◌, Bool, true, Option, some, List, length}
use printer_hmi_remote.Prelude.Int.{ℤ}
use printer_hmi_remote.Json.{Value}
use printer_hmi_remote.Codec.Base64.{Bytes, IsBytes}

-- Instants are whole microseconds since the first instant that `datetime` represents, the
-- resolution of `isoformat`, so that every instant is a natural number.
pub record Platform : Type 0 where
  -- `hashlib.sha256(b).digest()`
  pub sha256 : Bytes → Bytes
  -- `hashlib.pbkdf2_hmac("sha256", code, salt, 250_000, dklen=32)`
  pub pbkdf2 : Bytes → Bytes → Bytes
  -- `str.lower` and `str.upper`
  pub lower : String → String
  pub upper : String → String
  -- `json.loads(raw.decode("utf-8"))`, `none` for its `UnicodeDecodeError` or `JSONDecodeError`
  pub json_loads : Bytes → Option Value
  -- `float.__repr__`, of a number of millionths
  pub float_repr : ℤ → List ℕ
  -- `datetime.isoformat()` of an instant in UTC, less its final `+00:00`
  pub iso_body : ℕ → String
  -- `datetime.fromisoformat`, `none` for its `ValueError`
  pub from_iso : String → Option ℕ
  -- `Ed25519PrivateKey`: the public key, and `sign`
  pub public_key : Bytes → Bytes
  pub sign : Bytes → Bytes → Bytes
  -- `Ed25519PublicKey.from_public_bytes` accepts the bytes
  pub accepts_key : Bytes → Bool
  -- `verify`: public key, payload, signature; `false` for its `InvalidSignature`
  pub verify : Bytes → Bytes → Bytes → Bool

-- The first instant after the year 9999, the last one of `datetime`.
abbrev pub max_instant : ℕ
max_instant = 315537897600000000

pub record IsSound (p : Platform) : Type 0 where
  pub from_iso-iso : (t : ℕ) → t < max_instant → p.from_iso (p.iso_body t <> "+00:00") ≡ some t
  pub verify-sign : (k m : Bytes) → p.verify (p.public_key k) m (p.sign k m) ≡ true
  pub length-sign : (k m : Bytes) → length (p.sign k m) ≡ 64
  pub sign-IsBytes : (k m : Bytes) → IsBytes (p.sign k m)
  pub length-public_key : (k : Bytes) → length (p.public_key k) ≡ 32
  pub public_key-IsBytes : (k : Bytes) → IsBytes (p.public_key k)
