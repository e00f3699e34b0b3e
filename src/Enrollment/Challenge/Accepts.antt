-- ===== src/Enrollment/Challenge/Accepts.antt =====
-- enrollment.py: an agent accepts the challenge that a relay creates for it.
use printer_hmi_remote.Prelude.{
  ℕ, ◌+◌, ◌≤◌, ◌<◌, String, ◌≡◌, refl, true, length, arith, ok, eq_refl,
}
use printer_hmi_remote.Prelude.Int.{pos}
use printer_hmi_remote.Json.{
  Value, int, str, obj, Fields, end, field, lookup, same_keys, member, keys,
}
use printer_hmi_remote.Codec.Base64
use printer_hmi_remote.Codec.Base64.{Bytes, IsBytes}
use printer_hmi_remote.Codec.Base64.RoundTrip.{decode-encode}
use printer_hmi_remote.Codec.Pattern.{is_uuid, matches_relay_id}
use printer_hmi_remote.Codec.Time.{seconds, timestamp, parse_timestamp-timestamp}
use printer_hmi_remote.Platform.{Platform, IsSound, max_instant}
use printer_hmi_remote.Enrollment.Keys.{b64decode}
use printer_hmi_remote.Enrollment.Challenge.{
  check_lifetime, validate_relay_challenge, create_relay_challenge, challenge_clock_skew, bad_time,
  bad_encoding,
}

module _ (p : Platform) where
  -- The challenge, with a lifetime of 300 seconds.
  unfoldable pub made : String → String → ℕ → String → Bytes → Fields
  made device_id relay_id now challenge_id nonce = field "schema_version" (int (pos 1)) (
      field "type" (str "relay.challenge") (
        field "challenge_id" (str challenge_id) (
          field "relay_id" (str relay_id) (
            field "nonce" (str (Base64.encode nonce)) (
              field "audience" (str device_id) (
                field "issued_at" (str (timestamp p now))
                  (field "expires_at" (str (timestamp p (now + seconds 300))) end)))))))

  pub create_relay_challenge-made :
      (device_id relay_id : String) (now : ℕ) (challenge_id : String) (nonce : Bytes) (doc : Value)
      → create_relay_challenge p device_id relay_id 300 now challenge_id nonce ≡ ok doc
      → (doc ≡ obj (made device_id relay_id now challenge_id nonce))
        × (matches_relay_id relay_id ≡ true)
  unfolding create_relay_challenge made
  create_relay_challenge-made device_id relay_id now challenge_id nonce doc h =
      (ground arith, ground arith)

  check_lifetime-accepts :
      (issued now : ℕ)
      → issued ≤ now + seconds challenge_clock_skew
      → now < issued + seconds 300
      → check_lifetime issued (issued + seconds 300) now ≡ ok tt
  unfolding check_lifetime
  check_lifetime-accepts issued now early late = ground arith

  decode_nonce :
      (nonce : Bytes)
      → IsBytes nonce
      → b64decode bad_encoding (str (Base64.encode nonce)) ≡ ok nonce
  unfolding b64decode
  decode_nonce nonce h = rw (decode-encode nonce h) refl

  pub validate_relay_challenge-made :
      (sound : IsSound p) (device_id relay_id : String) (issued now : ℕ) (challenge_id : String)
      (nonce : Bytes)
      → matches_relay_id relay_id ≡ true
      → is_uuid challenge_id ≡ true
      → IsBytes nonce
      → length nonce ≡ 32
      → issued + seconds 300 < max_instant
      → issued ≤ now + seconds challenge_clock_skew
      → now < issued + seconds 300
      → validate_relay_challenge p
          (obj (made device_id relay_id issued challenge_id nonce))
          device_id
          now
        ≡ ok (made device_id relay_id issued challenge_id nonce)
  unfolding validate_relay_challenge made lookup same_keys member keys
  validate_relay_challenge-made sound device_id relay_id issued now challenge_id nonce m u bytes
        fits calendar early late =
      rw
        (
          u,
          m,
          decode_nonce nonce bytes,
          fits,
          eq_refl device_id,
          parse_timestamp-timestamp p sound bad_time issued (omega arith),
          parse_timestamp-timestamp p sound bad_time (issued + seconds 300) calendar,
          check_lifetime-accepts issued now early late,
        )
        refl
