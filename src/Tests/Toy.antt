-- ===== src/Tests/Toy.antt =====
-- A platform that satisfies the laws, to run the model on. Instants are counted out in letters, and every
-- key and every signature is zeros.
use Prim.Native.Char.{code}
use Prim.Native.String.append
use printer_hmi_remote.Prelude.{
  ℕ, zero, suc, String, ◌<>◌, ◌≡◌, refl, ap, true, Option, some, [], ◌∷◌, ◌==◌, if◌then◌else◌,
  arith,
}
use printer_hmi_remote.Json.{Value}
use printer_hmi_remote.Codec.Base64.{Bytes, IsBytes}
use printer_hmi_remote.Platform.{Platform, IsSound}
use printer_hmi_remote.Enrollment.Keys.{bytes_eq}

abbrev pub zeros : ℕ → Bytes
zeros zero = []
zeros (suc n) = 0 ∷ zeros n

abbrev pub letters : ℕ → String
letters zero = String.[]
letters (suc n) = String.◌∷◌ "x" (letters n)

abbrev pub count_letters : String → ℕ
count_letters String.[] = 0
count_letters (String.◌∷◌ c s) =
    let rest = count_letters s in if code c == b'x' then suc rest else 0

-- A session's frames, by their first byte.
abbrev pub toy : (Bytes → Option Value) → Platform
toy loads = record {
  sha256 = λ b. zeros 32;
  pbkdf2 = λ c s. zeros 32;
  lower = λ s. s;
  upper = λ s. s;
  json_loads = loads;
  float_repr = λ n. [];
  iso_body = letters;
  from_iso = λ s. some (count_letters s);
  public_key = λ k. zeros 32;
  sign = λ k m. zeros 64;
  accepts_key = λ k. true;
  verify = λ k m s. bytes_eq s (zeros 64);
}

count_letters-letters : (n : ℕ) → count_letters (letters n <> "+00:00") ≡ n
count_letters-letters zero = refl
count_letters-letters (suc n) = rw append.cons (ap suc (count_letters-letters n))

pub zeros-IsBytes : (n : ℕ) → IsBytes (zeros n)
zeros-IsBytes zero = tt
zeros-IsBytes (suc n) = (omega arith, zeros-IsBytes n)

pub toy-IsSound : (loads : Bytes → Option Value) → IsSound (toy loads)
unfolding bytes_eq
toy-IsSound loads = record {
  from_iso-iso = λ t h. ap some (count_letters-letters t);
  verify-sign = λ k m. refl;
  length-sign = λ k m. refl;
  sign-IsBytes = λ k m. zeros-IsBytes 64;
  length-public_key = λ k. refl;
  public_key-IsBytes = λ k. zeros-IsBytes 32;
}
