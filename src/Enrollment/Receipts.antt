-- ===== src/Enrollment/Receipts.antt =====
-- enrollment.py: a completed enrollment and its receipt.
use printer_hmi_remote.Prelude.{String, ◌≡◌, refl, subst, false, arith, ok, eq_iff, eq_refl}
use printer_hmi_remote.Action.{◌>>=◌, ◌>>◌, continue-eq-ok, continue-ensures, check-ensures}
use printer_hmi_remote.Dict
use printer_hmi_remote.Enrollment.Frames.{state_of}
use printer_hmi_remote.Json.{Value, str, obj, Fields, lookup, get, pop, same_keys}
use printer_hmi_remote.Codec.Base64
use printer_hmi_remote.Codec.Base64.{Bytes, IsBytes}
use printer_hmi_remote.Codec.Base64.RoundTrip.{decode-encode}
use printer_hmi_remote.Platform.{Platform, IsSound}
use printer_hmi_remote.Enrollment.Types.{Identity, Peer, State, Disk, Draw}
use printer_hmi_remote.Enrollment.Keys.{b64decode, device_id}
use printer_hmi_remote.Enrollment.Signed.{
  signed_payload, append_field, add_signature, enrollment_receipt_domain,
}
use printer_hmi_remote.Enrollment.Store.{
  bad_encoding, ensure_identity, prune_used_challenges, consume_pairing_locked,
}
use printer_hmi_remote.Enrollment.Challenge.{validate_relay_challenge}
use printer_hmi_remote.Enrollment.Request.{Request, read_request}
use printer_hmi_remote.Enrollment.Complete.{
  receipt_fields, check_proof, record_enrollment, enroll_with, complete_as,
  complete_relay_enrollment, text_of,
}
use printer_hmi_remote.Enrollment.Verify.{verify_enrollment_receipt}

-- The identity is the one that belongs to the private key.
abbrev pub IsOwn : Platform → Identity → Bytes → Type 0
IsOwn p i k =
    (i.public_key ≡ Base64.encode (p.public_key k)) × (i.device_id ≡ device_id p (p.public_key k))

module _ (p : Platform) where
  -- The identity that `ensure_identity` returns, new or loaded, has the public key and the identifier of
  -- the private key that is returned with it.
  pub ensure_identity-IsOwn :
      (draw : Draw) (d : Disk) (i : Identity) (k : Bytes)
      → (ensure_identity p draw d).0 ≡ ok (i, k)
      → IsOwn p i k
  unfolding ensure_identity
  ensure_identity-IsOwn draw d i k h = (
    ground (arith, eq_iff (Base64.encode (p.public_key k)) i.public_key),
    ground (arith, eq_iff (device_id p (p.public_key k)) i.device_id),
  )

  decodes : (bs : Bytes) → IsBytes bs → b64decode bad_encoding (str (Base64.encode bs)) ≡ ok bs
  unfolding b64decode
  decodes bs h = rw (decode-encode bs h) refl

  -- A signed receipt is accepted, and shows what was signed.
  verify_enrollment_receipt-sign :
      (sound : IsSound p) (draw : Draw) (i : Identity) (k : Bytes) (challenge : Fields)
      (request : Request) (peer : Peer)
      → IsOwn p i k
      → verify_enrollment_receipt p (
          obj (
            add_signature p enrollment_receipt_domain k
              (receipt_fields p draw i challenge request peer)))
        ≡ ok (receipt_fields p draw i challenge request peer)
  unfolding verify_enrollment_receipt receipt_fields append_field add_signature lookup pop same_keys
  verify_enrollment_receipt-sign sound draw i k challenge request peer own =
      let payload =
        signed_payload p enrollment_receipt_domain
          (receipt_fields p draw i challenge request peer) in
      ground (
        arith,
        own.0,
        own.1,
        decodes (p.public_key k) (sound.public_key-IsBytes k),
        decodes (p.sign k payload) (sound.sign-IsBytes k payload),
        sound.length-public_key k,
        sound.length-sign k payload,
        sound.verify-sign k payload,
        eq_refl (device_id p (p.public_key k)),
      )

  -- A receipt that `verify_enrollment_receipt` accepts.
  abbrev pub IsReceipt : Value → Type 0
  IsReceipt v = (receipt : Fields) × (verify_enrollment_receipt p v ≡ ok receipt)

  record_enrollment-IsReceipt :
      (sound : IsSound p) (draw : Draw) (i : Identity) (k : Bytes) (challenge : Fields)
      (id : String) (request : Request) (enrolled : Peer × State) (d : Disk) (v : Value)
      → IsOwn p i k
      → (record_enrollment p draw i k challenge id request enrolled d).0 ≡ ok v
      → IsReceipt v
  unfolding record_enrollment
  record_enrollment-IsReceipt sound draw i k challenge id request (peer, state) d v own h =
      let same : obj (
            add_signature p enrollment_receipt_domain k
              (receipt_fields p draw i challenge request peer))
          ≡ v =
        ground arith in
      subst IsReceipt same (
        receipt_fields p draw i challenge request peer,
        verify_enrollment_receipt-sign sound draw i k challenge request peer own,
      )

  module _ (sound : IsSound p) (draw : Draw) where
    enroll_with-IsReceipt :
        (i : Identity) (k : Bytes) (challenge : Fields) (id : String) (request : Request)
        (state : State) (d : Disk) (v : Value)
        → IsOwn p i k
        → (enroll_with p draw i k challenge id request state d).0 ≡ ok v
        → IsReceipt v
    unfolding enroll_with
    enroll_with-IsReceipt i k challenge id request state d v own =
        let P = λ (_ : Disk). IsReceipt v in
        let consume =
          consume_pairing_locked p draw state request.pairing_id request.normalized_code
            request.peer_id request.peer_key false in
        let finish = record_enrollment p draw i k challenge id request in
        let d' = (check_proof p draw i challenge request d).1 in
        check-ensures P (Dict.contains id state.used_challenges) _
          (check_proof p draw i challenge request >> (consume >>= finish)) d
          (λ _.
            continue-ensures P (check_proof p draw i challenge request d).0
              (λ _. consume >>= finish) d'
              (λ _ _. continue-ensures P (consume d').0 finish (consume d').1 (λ enrolled _.
                record_enrollment-IsReceipt sound draw i k challenge id request enrolled
                  (consume d').1 v own)))

    complete_as-IsReceipt :
        (request : Request) (i : Identity) (k : Bytes) (d : Disk) (v : Value)
        → IsOwn p i k
        → (complete_as p draw request (i, k) d).0 ≡ ok v
        → IsReceipt v
    unfolding complete_as
    complete_as-IsReceipt request i k d v own =
        continue-ensures (λ _. IsReceipt v)
          (validate_relay_challenge p request.challenge i.device_id draw.now) _ d
          (λ challenge _.
            enroll_with-IsReceipt i k challenge (text_of (get "challenge_id" challenge)) request
              (prune_used_challenges p draw (state_of d.state)) d v own)

    -- On a platform that satisfies the laws, every enrollment that completes gives a receipt that
    -- `verify_enrollment_receipt` accepts.
    pub complete_relay_enrollment-IsReceipt :
        (document : Value) (d : Disk) (v : Value)
        → (complete_relay_enrollment p draw document d).0 ≡ ok v
        → IsReceipt v
    unfolding complete_relay_enrollment
    complete_relay_enrollment-IsReceipt document d v h =
        let (request, _, h1) =
          continue-eq-ok (read_request p document)
            (λ r. ensure_identity p draw >>= complete_as p draw r) d h in
        let ((i, k), e, h2) =
          continue-eq-ok (ensure_identity p draw d).0 (complete_as p draw request) _ h1 in
        complete_as-IsReceipt request i k _ v (ensure_identity-IsOwn draw d i k e) h2
