-- ===== src/Codec/Pattern.antt =====
-- The regular expressions of the program, each as a test of the whole text (`fullmatch`), the shape
-- of a canonical UUID, and the device identifier derived from a public key.
use Prim.Native.Char.{Char}
use printer_hmi_remote.Prelude.{
  ℕ, zero, suc, ◌+◌, ◌*◌, ◌/◌, ◌%◌, String, ◌<>◌, Bool, ◌&&◌, ◌||◌, List, [], ◌∷◌, ◌==◌, leb,
  starts_with, length, drop, all, codes, if◌then◌else◌,
}
use printer_hmi_remote.Codec.Base64.{Bytes, pick}

abbrev between : ℕ → ℕ → ℕ → Bool
between lo hi c = leb lo c && leb c hi

abbrev is_alphanumeric : ℕ → Bool
is_alphanumeric c = between b'A' b'Z' c || between b'a' b'z' c || between b'0' b'9' c

-- `[A-Za-z0-9._-]`
abbrev is_name_code : ℕ → Bool
is_name_code c = is_alphanumeric c || c == b'.' || c == b'_' || c == b'-'

-- `[a-z2-7]`
abbrev is_base32_code : ℕ → Bool
is_base32_code c = between b'a' b'z' c || between b'2' b'7' c

-- `[A-Za-z0-9_-]`
abbrev is_base64_code : ℕ → Bool
is_base64_code c = is_alphanumeric c || c == b'_' || c == b'-'

-- `[23456789ABCDEFGHJKLMNPQRSTUVWXYZ]`
abbrev pub is_pairing_code : ℕ → Bool
is_pairing_code c =
    between b'2' b'9' c || between b'A' b'H' c || between b'J' b'N' c || between b'P' b'Z' c

-- `^[A-Za-z0-9._-]{1,64}$`, which `RELAY_ID_PATTERN` and `PEER_ID_PATTERN` share.
unfoldable pub matches_relay_id : String → Bool
matches_relay_id s =
    let cs = codes s in leb 1 (length cs) && leb (length cs) 64 && all is_name_code cs

-- `^phm_[a-z2-7]{26}$`
unfoldable pub matches_device_id : String → Bool
matches_device_id s =
    let cs = codes s in starts_with s "phm_" && length cs == 30 && all is_base32_code (drop 4 cs)

-- `^[A-Za-z0-9_-]{43}$`
unfoldable pub matches_public_key : String → Bool
matches_public_key s = let cs = codes s in length cs == 43 && all is_base64_code cs

abbrev is_hex_code : ℕ → Bool
is_hex_code c = between b'0' b'9' c || between b'a' b'f' c

abbrev is_dash_place : ℕ → Bool
is_dash_place i = i == 8 || i == 13 || i == 18 || i == 23

uuid_from : ℕ → List ℕ → Bool
uuid_from i [] = i == 36
uuid_from i (c ∷ cs) =
    (if is_dash_place i then c == b'-' else is_hex_code c) && uuid_from (i + 1) cs

-- `str(uuid.UUID(s)) == s`: 36 characters, dashes at four places, lower-case hexadecimal elsewhere.
unfoldable pub is_uuid : String → Bool
unfolding uuid_from
is_uuid s = uuid_from 0 (codes s)

abbrev base32_alphabet : String
base32_alphabet = "abcdefghijklmnopqrstuvwxyz234567"

abbrev digit32 : ℕ → Char
digit32 n = pick base32_alphabet n

-- `base64.b32encode(digest).decode("ascii").rstrip("=").lower()`
unfoldable pub base32 : Bytes → String
base32 [] = String.[]
base32 (a ∷ []) = String.◌∷◌ (digit32 (a / 8)) (String.◌∷◌ (digit32 (a % 8 * 4)) String.[])
base32 (a ∷ b ∷ []) = String.◌∷◌ (digit32 (a / 8)) (
    String.◌∷◌ (digit32 (a % 8 * 4 + b / 64))
      (String.◌∷◌ (digit32 (b / 2 % 32)) (String.◌∷◌ (digit32 (b % 2 * 16)) String.[])))
base32 (a ∷ b ∷ c ∷ []) = String.◌∷◌ (digit32 (a / 8)) (
    String.◌∷◌ (digit32 (a % 8 * 4 + b / 64)) (
      String.◌∷◌ (digit32 (b / 2 % 32))
        (String.◌∷◌ (digit32 (b % 2 * 16 + c / 16)) (String.◌∷◌ (digit32 (c % 16 * 2)) String.[]))))
base32 (a ∷ b ∷ c ∷ d ∷ []) = String.◌∷◌ (digit32 (a / 8)) (
    String.◌∷◌ (digit32 (a % 8 * 4 + b / 64)) (
      String.◌∷◌ (digit32 (b / 2 % 32)) (
        String.◌∷◌ (digit32 (b % 2 * 16 + c / 16)) (
          String.◌∷◌ (digit32 (c % 16 * 2 + d / 128))
            (String.◌∷◌ (digit32 (d / 4 % 32)) (String.◌∷◌ (digit32 (d % 4 * 8)) String.[]))))))
base32 (a ∷ b ∷ c ∷ d ∷ e ∷ rest) = String.◌∷◌ (digit32 (a / 8)) (
    String.◌∷◌ (digit32 (a % 8 * 4 + b / 64)) (
      String.◌∷◌ (digit32 (b / 2 % 32)) (
        String.◌∷◌ (digit32 (b % 2 * 16 + c / 16)) (
          String.◌∷◌ (digit32 (c % 16 * 2 + d / 128)) (
            String.◌∷◌ (digit32 (d / 4 % 32)) (
              String.◌∷◌ (digit32 (d % 4 * 8 + e / 32))
                (String.◌∷◌ (digit32 (e % 32)) (base32 rest))))))))

-- `s[:n]`
unfoldable pub take_str : ℕ → String → String
take_str zero s = String.[]
take_str (suc n) String.[] = String.[]
take_str (suc n) (String.◌∷◌ c s) = String.◌∷◌ c (take_str n s)

-- `_device_id`, over the SHA-256 digest of the public key.
unfoldable pub device_id_of_digest : Bytes → String
unfolding base32 take_str
device_id_of_digest digest = "phm_" <> take_str 26 (base32 digest)

-- `s[n:]`
unfoldable pub drop_str : ℕ → String → String
drop_str zero s = s
drop_str (suc n) String.[] = String.[]
drop_str (suc n) (String.◌∷◌ c s) = drop_str n s
