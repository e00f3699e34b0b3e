-- ===== src/Configuration/Accepted.antt =====
-- relay_configuration.py with enrollment.py: an agent accepts a request that the manager created.
use printer_hmi_remote.Prelude.{◌≡◌, refl, true, Option, length, ok}
use printer_hmi_remote.Json.{Value, str, obj, Fields, get}
use printer_hmi_remote.Codec.Base64
use printer_hmi_remote.Codec.Base64.{Bytes}
use printer_hmi_remote.Codec.Base64.RoundTrip.{decode-encode}
use printer_hmi_remote.Codec.Pattern.{is_uuid}
use printer_hmi_remote.Platform.{Platform, IsSound}
use printer_hmi_remote.Enrollment.Types.{Identity, Disk, Draw}
use printer_hmi_remote.Enrollment.Keys.{b64decode}
use printer_hmi_remote.Enrollment.Request.{Request, read_request}
use printer_hmi_remote.Enrollment.Store.{bad_encoding}
use printer_hmi_remote.Enrollment.Complete.{check_proof}
use printer_hmi_remote.Configuration.Load.{load_state, text_of}
use printer_hmi_remote.Configuration.Request.{Offer, Fresh, read_offer, request_of}
use printer_hmi_remote.Codec.Base64.{IsBytes}
use printer_hmi_remote.Prelude.{ℕ, ◌+◌, ◌≤◌, ◌<◌}
use printer_hmi_remote.Platform.{max_instant}
use printer_hmi_remote.Codec.Time.{seconds}
use printer_hmi_remote.Enrollment.Challenge.{validate_relay_challenge, challenge_clock_skew}
use printer_hmi_remote.Enrollment.Challenge.Accepts.{validate_relay_challenge-made}
use printer_hmi_remote.Configuration.Proof.{
  peer_of, offered_pairing, read_formed, proof_of, drawn_challenge, request_of-IsSigned,
}

-- What is drawn for a request is well formed, and the agent's clock stands within the challenge's lifetime.
abbrev pub IsTimely : Fresh → ℕ → Type 0
IsTimely fresh now =
    (is_uuid fresh.challenge_id ≡ true)
    × IsBytes fresh.nonce
    × (length fresh.nonce ≡ 32)
    × (fresh.now + seconds 300 < max_instant)
    × (fresh.now ≤ now + seconds challenge_clock_skew)
    × (now < fresh.now + seconds 300)

module _ (p : Platform) where
  -- What an agent makes of a request: it reads it, finds the challenge valid, and accepts the peer's proof
  -- without a change.
  abbrev pub IsAccepted : Draw → Identity → Fields → Fields → Disk → Type 0
  IsAccepted draw i challenge request d =
      (r : Request) × (read_request p (obj request) ≡ ok r)
      × (validate_relay_challenge p r.challenge i.device_id draw.now ≡ ok challenge)
      × (check_proof p draw i challenge r d ≡ (ok tt, d))

  decode_signature :
      (sound : IsSound p) (k m : Bytes)
      → b64decode bad_encoding (str (Base64.encode (p.sign k m))) ≡ ok (p.sign k m)
  unfolding b64decode
  decode_signature sound k m = rw (decode-encode (p.sign k m) (sound.sign-IsBytes k m)) refl

  -- On a platform that satisfies the laws of IsSound and accepts every public key: a request that the relay's manager makes from a
  -- state that loads and an offer that passes the checks is read by an agent with the offer's identifier; at
  -- a time within the challenge's lifetime the agent finds its challenge valid, and accepts the peer's proof
  -- without a change of its disk.
  pub request_of-IsAccepted :
      (sound : IsSound p) (read file : Option Value) (fs : Fields) (o : Offer) (fresh : Fresh)
      (challenge request : Fields) (draw : Draw) (i : Identity) (d : Disk)
      → load_state p read ≡ ok fs
      → read_offer p file ≡ ok o
      → request_of p fs o fresh ≡ ok (challenge, request)
      → ((k : Bytes) → p.accepts_key (p.public_key k) ≡ true)
      → i.device_id ≡ o.device_id
      → IsTimely fresh draw.now
      → IsAccepted draw i challenge request d
  unfolding check_proof
  request_of-IsAccepted sound read file fs o fresh challenge request draw i d loads offered asked
        accepts mine (uuid, bytes, fits, calendar, early, late) =
      let (k, public, e, same, named) =
        request_of-IsSigned p read fs o fresh challenge request loads asked in
      let proof = proof_of p fs o challenge in
      let relay_id = text_of (get "relay_id" fs) in
      let (r, reads, pairing, peer, key, signature, carried) =
        read_formed p o.pairing_id (obj (drawn_challenge p fs o fresh)) o.code
          (text_of (get "peer_id" fs)) (get "peer_public_key" fs) (p.public_key k) (p.sign k proof)
          (offered_pairing p file o offered) (peer_of p read fs loads).1 public
          (sound.length-public_key k) (accepts k) (sound.length-sign k proof)
          (decode_signature sound k proof) in
      (
        r,
        rw e reads,
        rw (carried, mine, same)
            (validate_relay_challenge-made p sound o.device_id relay_id fresh.now draw.now
              fresh.challenge_id fresh.nonce named uuid bytes fits calendar early late),
        rw (key, signature, pairing, peer, mine, sound.verify-sign k proof) refl,
      )
