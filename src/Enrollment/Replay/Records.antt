-- ===== src/Enrollment/Replay/Records.antt =====
-- enrollment.py: a completed enrollment records its challenge, and a recorded challenge is refused.
use native.Mathlib.Nat.{le_refl}
use printer_hmi_remote.Prelude.{
  ℕ, ◌<◌, String, ◌≡◌, ◌≢◌, false, arith, ok, subst, sym, ap, ◌∙◌, eq_refl,
}
use printer_hmi_remote.Action.{continue-ensures, check-ensures, ◌>>=◌, ◌>>◌}
use printer_hmi_remote.Json.{Value, Fields, get}
use printer_hmi_remote.Dict
use printer_hmi_remote.Dict.{Dict, lookup-insert, lookup-keep_of_pass}
use printer_hmi_remote.Codec.Base64.{Bytes}
use printer_hmi_remote.Codec.Time.{parse_timestamp}
use printer_hmi_remote.Platform.{Platform}
use printer_hmi_remote.Enrollment.Types.{Identity, Peer, State, Disk, Draw}
use printer_hmi_remote.Enrollment.Operations.{bad_time}
use printer_hmi_remote.Enrollment.Request.{Request, read_request}
use printer_hmi_remote.Enrollment.Challenge.{validate_relay_challenge}
use printer_hmi_remote.Enrollment.Challenge.Facts.{
  expiry, fields_of, validate_document, validate_expiry,
}
use printer_hmi_remote.Enrollment.Store.{
  consume_pairing_locked, prune_used_challenges, ensure_identity,
}
use printer_hmi_remote.Enrollment.Complete.{
  enroll_with, check_proof, record_enrollment, complete_as, complete_relay_enrollment, text_of,
}
use printer_hmi_remote.Enrollment.Frames.{state_of, state-ensure_identity}
use printer_hmi_remote.Enrollment.Replay.Keeps.{
  LiveUntil, IsSpent, IsSpent_of_used, prune_used_challenges-LiveUntil,
}

-- The challenge in an enrollment request, and its identifier.
abbrev pub challenge_of : Value → Value
challenge_of document = get "challenge" (fields_of document)

abbrev pub challenge_id_of : Value → String
challenge_id_of challenge = text_of (get "challenge_id" (fields_of challenge))

module _ (p : Platform) where
  read_request_challenge :
      (document : Value) (r : Request)
      → read_request p document ≡ ok r
      → r.challenge ≡ challenge_of document
  unfolding read_request
  read_request_challenge document r h = ground arith

module _ (p : Platform) (draw : Draw) where
  record_enrollment-records :
      (i : Identity) (k : Bytes) (c : Fields) (cid : String) (r : Request) (a : Peer × State)
      (d : Disk) {v : Value}
      → (record_enrollment p draw i k c cid r a d).0 ≡ ok v
      → IsSpent cid (expiry p c) (record_enrollment p draw i k c cid r a d).1
  unfolding record_enrollment
  record_enrollment-records i k c cid r a d =
      continue-ensures (IsSpent cid (expiry p c)) (parse_timestamp p bad_time (get "expires_at" c))
        _ d (λ t et _. rw lookup-insert (rw eq_refl (rw et (le_refl t))))

  enroll_with-records :
      (i : Identity) (k : Bytes) (c : Fields) (cid : String) (r : Request) (s : State) (d : Disk)
      {v : Value}
      → (enroll_with p draw i k c cid r s d).0 ≡ ok v
      → IsSpent cid (expiry p c) (enroll_with p draw i k c cid r s d).1
  unfolding enroll_with
  enroll_with-records i k c cid r s d =
      let P = IsSpent cid (expiry p c) in
      let d' = (check_proof p draw i c r d).1 in
      let consume =
        consume_pairing_locked p draw s r.pairing_id r.normalized_code r.peer_id r.peer_key false in
      let finish = record_enrollment p draw i k c cid r in
      check-ensures P (Dict.contains cid s.used_challenges) _
        (check_proof p draw i c r >> (consume >>= finish)) d
        (λ _.
          continue-ensures P (check_proof p draw i c r d).0 (λ _. consume >>= finish) d'
            (λ _ _.
              continue-ensures P (consume d').0 finish (consume d').1
                (λ a _. record_enrollment-records i k c cid r a (consume d').1)))

  -- A completed enrollment has its challenge recorded until the challenge expires.
  pub complete_relay_enrollment-records :
      (document : Value) (d : Disk) {v : Value}
      → (complete_relay_enrollment p draw document d).0 ≡ ok v
      → let challenge = challenge_of document in
        IsSpent
          (challenge_id_of challenge)
          (expiry p (fields_of challenge))
          (complete_relay_enrollment p draw document d).1
  unfolding complete_relay_enrollment complete_as
  complete_relay_enrollment-records document d =
      let challenge = challenge_of document in
      let P = IsSpent (challenge_id_of challenge) (expiry p (fields_of challenge)) in
      let d' = (ensure_identity p draw d).1 in
      continue-ensures P (read_request p document)
        (λ r. ensure_identity p draw >>= complete_as p draw r) d
        (λ r er. continue-ensures P (ensure_identity p draw d).0 (complete_as p draw r) d' (λ a _.
          continue-ensures P (validate_relay_challenge p r.challenge a.0.device_id draw.now) _ d'
            (λ c ec h.
              let same =
                sym (read_request_challenge p document r er)
                ∙ validate_document p r.challenge a.0.device_id draw.now c ec in
              let cid = text_of (get "challenge_id" c) in
              let state = prune_used_challenges p draw (state_of d'.state) in
              subst
                (λ x.
                  IsSpent (challenge_id_of x) (expiry p (fields_of x))
                    (enroll_with p draw a.0 a.1 c cid r state d').1)
                (sym same) (enroll_with-records a.0 a.1 c cid r state d' h))))

  -- Where the challenge is recorded and has not expired, the pruned state has it, and it is refused.
  enroll_with-refuses :
      (i : Identity) (k : Bytes) (c : Fields) (cid : String) (r : Request) (s : State) (e : ℕ)
      (d : Disk) {v : Value}
      → LiveUntil e (Dict.lookup cid s.used_challenges)
      → (enroll_with p draw i k c cid r s d).0 ≢ ok v
  unfolding enroll_with
  enroll_with-refuses i k c cid r s e d l =
      let next =
        check_proof p draw i c r
        >> (consume_pairing_locked p draw s r.pairing_id r.normalized_code r.peer_id r.peer_key
              false
            >>= record_enrollment p draw i k c cid r) in
      check-ensures (λ _. ⊥) (Dict.contains cid s.used_challenges) _ next d
        (λ unused _. ground arith)

  -- A recorded challenge that has not expired is refused, whatever else the request holds; an expired
  -- one is refused too.
  pub complete_relay_enrollment-refuses :
      (document : Value) (d : Disk) {v : Value}
      → let challenge = challenge_of document in
        (draw.now < expiry p (fields_of challenge)
          → IsSpent (challenge_id_of challenge) (expiry p (fields_of challenge)) d)
        → (complete_relay_enrollment p draw document d).0 ≢ ok v
  unfolding complete_relay_enrollment complete_as
  complete_relay_enrollment-refuses document d spent =
      let challenge = challenge_of document in
      let d' = (ensure_identity p draw d).1 in
      let used_same = ap (λ x. (state_of x).used_challenges) (state-ensure_identity p draw d) in
      continue-ensures (λ _. ⊥) (read_request p document)
        (λ r. ensure_identity p draw >>= complete_as p draw r) d
        (λ r er.
          continue-ensures (λ _. ⊥) (ensure_identity p draw d).0 (complete_as p draw r) d'
            (λ a _.
              continue-ensures (λ _. ⊥)
                (validate_relay_challenge p r.challenge a.0.device_id draw.now) _ d'
                (λ c ec h.
                  let same =
                    sym (read_request_challenge p document r er)
                    ∙ validate_document p r.challenge a.0.device_id draw.now c ec in
                  let cid = text_of (get "challenge_id" c) in
                  let state = prune_used_challenges p draw (state_of d'.state) in
                  let now_lt = (validate_expiry p r.challenge a.0.device_id draw.now c ec).1 in
                  let spent' : IsSpent cid (expiry p c) d =
                    subst
                      (λ x.
                        draw.now < expiry p (fields_of x)
                        → IsSpent (challenge_id_of x) (expiry p (fields_of x)) d)
                      same spent now_lt in
                  enroll_with-refuses a.0 a.1 c cid r state (expiry p c) d'
                    (prune_used_challenges-LiveUntil p draw cid (expiry p c) (state_of d'.state)
                      now_lt (IsSpent_of_used cid (expiry p c) used_same spent'))
                    h)))
