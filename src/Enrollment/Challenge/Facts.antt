-- ===== src/Enrollment/Challenge/Facts.antt =====
-- What `_validate_relay_challenge` has established when it returns.
use printer_hmi_remote.Prelude.{ℕ, ◌<◌, String, ◌≡◌, arith, Result, ok, err}
use printer_hmi_remote.Json.{Value, obj, Fields, end, get}
use printer_hmi_remote.Codec.Time.{parse_timestamp}
use printer_hmi_remote.Platform.{Platform}
use printer_hmi_remote.Enrollment.Challenge.{validate_relay_challenge, bad_time}

abbrev pub time_of : Result ℕ → ℕ
time_of (ok t) = t
time_of (err e) = 0

-- The fields of a document that is known to be an object, and a text that is known to be one.
abbrev pub fields_of : Value → Fields
fields_of v = elim v [ obj fs ↦ fs | _ ↦ end ]

module _ (p : Platform) where
  -- When the challenge expires.
  abbrev pub expiry : Fields → ℕ
  expiry c = time_of (parse_timestamp p bad_time (get "expires_at" c))

  pub validate_document :
      (v : Value) (device_id : String) (now : ℕ) (c : Fields)
      → validate_relay_challenge p v device_id now ≡ ok c
      → v ≡ obj c
  unfolding validate_relay_challenge
  validate_document v device_id now c h = ground arith

  pub validate_expiry :
      (v : Value) (device_id : String) (now : ℕ) (c : Fields)
      → validate_relay_challenge p v device_id now ≡ ok c
      → (parse_timestamp p bad_time (get "expires_at" c) ≡ ok (expiry c)) × (now < expiry c)
  unfolding validate_relay_challenge
  validate_expiry v device_id now c h = ground arith
