-- ===== src/Enrollment/Keys.antt =====
-- enrollment.py: `_b64decode`, `_device_id`, `_fingerprint`, `_normalize_code`, `_code_digest`.
use Prim.Native.Char.{code}
use printer_hmi_remote.Prelude.{
  ℕ, ◌/◌, ◌%◌, String, ◌<>◌, Bool, true, false, not, ◌&&◌, ◌||◌, [], ◌∷◌, ◌==◌, length, take, all,
  codes, if◌then◌else◌, Error, enrollment, Result, ok, err, need, raise_if, ◌>>◌,
}
use printer_hmi_remote.Json.{Value, str}
use printer_hmi_remote.Codec.Base64
use printer_hmi_remote.Codec.Base64.{Bytes, pick}
use printer_hmi_remote.Codec.Pattern.{is_pairing_code, device_id_of_digest}
use printer_hmi_remote.Platform.{Platform}

-- `_b64decode`, and `_decode` of the other files with their errors.
unfoldable pub b64decode : Error → Value → Result Bytes
b64decode e (str s) = need (Base64.decode s) e
b64decode e _ = err e

-- `hmac.compare_digest`, `==` of `bytes`
unfoldable pub bytes_eq : Bytes → Bytes → Bool
bytes_eq [] [] = true
bytes_eq (a ∷ as') (b ∷ bs) = a == b && bytes_eq as' bs
bytes_eq _ _ = false

hex_alphabet : String
hex_alphabet = "0123456789abcdef"

hex_byte : ℕ → String
unfolding pick hex_alphabet
hex_byte b =
    String.◌∷◌ (pick hex_alphabet (b / 16)) (String.◌∷◌ (pick hex_alphabet (b % 16)) String.[])

-- The bytes in hexadecimal, joined by colons.
joined : Bytes → String
unfolding hex_byte
joined [] = ""
joined (b ∷ []) = hex_byte b
joined (b ∷ c ∷ rest) = hex_byte b <> (":" <> joined (c ∷ rest))

unfoldable pub without_separators : String → String
without_separators String.[] = String.[]
without_separators (String.◌∷◌ c s) =
    let rest = without_separators s in
    if code c == b'-' || code c == b' ' then rest else String.◌∷◌ c rest

abbrev pub bad_code : Error
bad_code = enrollment "invalid or expired pairing code"

module _ (p : Platform) where
  unfoldable pub device_id : Bytes → String
  device_id public_key = device_id_of_digest (p.sha256 public_key)

  -- Pairs of the first 32 hexadecimal digits.
  unfoldable pub fingerprint : Bytes → String
  unfolding joined
  fingerprint public_key = joined (take 16 (p.sha256 public_key))

  unfoldable pub normalize_code : Value → Result String
  unfolding without_separators
  normalize_code (str s) = do
    let normalized = p.upper (without_separators s)
    raise_if (not (length (codes normalized) == 10)) bad_code
    raise_if (not (all is_pairing_code (codes normalized))) bad_code
    ok normalized
  normalize_code _ = err bad_code

  unfoldable pub code_digest : String → Bytes → Bytes
  code_digest pairing_code salt = p.pbkdf2 (codes pairing_code) salt
