-- ===== src/Enrollment/Replay/Keeps.antt =====
-- enrollment.py: a used challenge stays recorded until it has expired.
use printer_hmi_remote.Prelude.{
  ℕ, ◌≤◌, ◌<◌, String, ◌≡◌, inl, inr, Bool, false, not, Option, none, some, arith, str_eq, eq_iff,
  leb, Option-cases, Bool-cases, subst, sym, ap,
}
use printer_hmi_remote.Action.{continue-keeps, check-keeps, ◌>>=◌, ◌>>◌}
use printer_hmi_remote.Json.{Value, Fields, get}
use printer_hmi_remote.Dict
use printer_hmi_remote.Dict.{Dict, lookup-insert, lookup-keep_of_pass}
use printer_hmi_remote.Codec.Base64.{Bytes}
use printer_hmi_remote.Codec.Time.{parse_timestamp}
use printer_hmi_remote.Platform.{Platform}
use printer_hmi_remote.Enrollment.Types.{Identity, Peer, UsedChallenge, State, Disk, Draw}
use printer_hmi_remote.Enrollment.Operations.{bad_time}
use printer_hmi_remote.Enrollment.Request.{Request, read_request}
use printer_hmi_remote.Enrollment.Challenge.{validate_relay_challenge}
use printer_hmi_remote.Enrollment.Store.{
  consume_pairing_locked, prune_used_challenges, ensure_identity,
}
use printer_hmi_remote.Enrollment.Complete.{
  enroll_with, check_proof, record_enrollment, complete_as, complete_relay_enrollment, text_of,
}
use printer_hmi_remote.Enrollment.Frames.{
  used_of, state_of, used-consume_pairing_locked, result_used-consume_pairing_locked,
  state-ensure_identity,
}

abbrev pub LiveUntil : ℕ → Option UsedChallenge → Type 0
LiveUntil e none = ⊥
LiveUntil e (some u) = e ≤ u.expires_epoch

-- The challenge is recorded as used, and the record does not expire before `e`.
abbrev pub IsSpent : String → ℕ → Disk → Type 0
IsSpent id e d = LiveUntil e (Dict.lookup id (used_of d))

pub IsSpent_of_used :
    (id : String) (e : ℕ) {used used' : Dict UsedChallenge}
    → used' ≡ used
    → LiveUntil e (Dict.lookup id used)
    → LiveUntil e (Dict.lookup id used')
IsSpent_of_used id e same h = subst (λ u. LiveUntil e (Dict.lookup id u)) (sym same) h

-- A challenge that is not recorded is another than one that is.
pub unrecorded_differs :
    (cid id : String) (e : ℕ) (used : Dict UsedChallenge)
    → Dict.contains cid used ≡ false
    → LiveUntil e (Dict.lookup id used)
    → str_eq cid id ≡ false
unrecorded_differs cid id e used unused h = elim (Bool-cases (str_eq cid id)) [
  | inl same ↦ ground (arith, (eq_iff cid id).0 same)
  | inr differ ↦ differ
]

module _ (p : Platform) (draw : Draw) where
  -- Pruning keeps what has not expired.
  pub prune_used_challenges-LiveUntil :
      (id : String) (e : ℕ) (s : State)
      → draw.now < e
      → LiveUntil e (Dict.lookup id s.used_challenges)
      → LiveUntil e (Dict.lookup id (prune_used_challenges p draw s).used_challenges)
  unfolding prune_used_challenges
  prune_used_challenges-LiveUntil id e s h l =
      elim (Option-cases (Dict.lookup id s.used_challenges)) [
        | inl missing ↦ absurd (rw missing at l)
        | inr (u, found) ↦
            rw
              (lookup-keep_of_pass (λ (x : UsedChallenge). not (leb x.expires_epoch draw.now)) id u
                s.used_challenges found (ground arith))
              (ground arith)
      ]

  pub state-check_proof :
      (i : Identity) (c : Fields) (r : Request) (d : Disk)
      → (check_proof p draw i c r d).1.state ≡ d.state
  unfolding check_proof
  state-check_proof i c r d = ground arith

  consume_pairing_locked-IsSpent :
      (s : State) (pid code peer_id : String) (key : Bytes) (b : Bool) (id : String) (e : ℕ)
      (d : Disk)
      → LiveUntil e (Dict.lookup id s.used_challenges)
      → IsSpent id e d
      → IsSpent id e (consume_pairing_locked p draw s pid code peer_id key b d).1
  consume_pairing_locked-IsSpent s pid code peer_id key b id e d hs hd =
      elim (used-consume_pairing_locked p draw s pid code peer_id key b d) [
        | inl from_state ↦ subst (λ u. LiveUntil e (Dict.lookup id u)) (sym from_state) hs
        | inr from_disk ↦ subst (λ u. LiveUntil e (Dict.lookup id u)) (sym from_disk) hd
      ]

  record_enrollment-IsSpent :
      (i : Identity) (k : Bytes) (c : Fields) (cid : String) (r : Request) (a : Peer × State)
      (id : String) (e : ℕ) (d : Disk)
      → str_eq cid id ≡ false
      → LiveUntil e (Dict.lookup id a.1.used_challenges)
      → IsSpent id e d
      → IsSpent id e (record_enrollment p draw i k c cid r a d).1
  unfolding record_enrollment
  record_enrollment-IsSpent i k c cid r a id e d ne hs hd =
      continue-keeps (IsSpent id e) (parse_timestamp p bad_time (get "expires_at" c)) _ d hd
        (λ t et. rw lookup-insert (rw ne hs))

  -- A recorded challenge stays recorded, and another one is enrolled.
  enroll_with-IsSpent :
      (i : Identity) (k : Bytes) (c : Fields) (cid : String) (r : Request) (s : State) (id : String)
      (e : ℕ) (d : Disk)
      → LiveUntil e (Dict.lookup id s.used_challenges)
      → IsSpent id e d
      → IsSpent id e (enroll_with p draw i k c cid r s d).1
  unfolding enroll_with
  enroll_with-IsSpent i k c cid r s id e d hs hd =
      let d' = (check_proof p draw i c r d).1 in
      let (m, d'') =
        consume_pairing_locked p draw s r.pairing_id r.normalized_code r.peer_id r.peer_key false
          d' in
      let hd' =
        IsSpent_of_used id e (ap (λ x. (state_of x).used_challenges) (state-check_proof i c r d))
          hd in
      let hd'' : IsSpent id e d'' =
        consume_pairing_locked-IsSpent s r.pairing_id r.normalized_code r.peer_id r.peer_key false
          id e d' hs hd' in
      let consume =
        consume_pairing_locked p draw s r.pairing_id r.normalized_code r.peer_id r.peer_key false in
      let finish = record_enrollment p draw i k c cid r in
      check-keeps (IsSpent id e) (Dict.contains cid s.used_challenges) _
        (check_proof p draw i c r >> (consume >>= finish)) d hd
        (λ unused.
          continue-keeps (IsSpent id e) (check_proof p draw i c r d).0 (λ _. consume >>= finish) d'
            hd'
            (λ _ _. continue-keeps (IsSpent id e) m finish d'' hd'' (λ a ea.
              record_enrollment-IsSpent i k c cid r a id e d''
                (unrecorded_differs cid id e s.used_challenges unused hs)
                (rw
                  (result_used-consume_pairing_locked p draw s r.pairing_id r.normalized_code
                    r.peer_id r.peer_key false d' a ea)
                  hs)
                hd'')))

  complete_as-IsSpent :
      (r : Request) (a : Identity × Bytes) (id : String) (e : ℕ) (d : Disk)
      → draw.now < e
      → IsSpent id e d
      → IsSpent id e (complete_as p draw r a d).1
  unfolding complete_as
  complete_as-IsSpent r a id e d h hd =
      continue-keeps (IsSpent id e) (validate_relay_challenge p r.challenge a.0.device_id draw.now)
        _ d hd
        (λ c _.
          enroll_with-IsSpent a.0 a.1 c (text_of (get "challenge_id" c)) r
            (prune_used_challenges p draw (state_of d.state)) id e d
            (prune_used_challenges-LiveUntil id e (state_of d.state) h hd) hd)

  -- So does every completed or refused enrollment, before the record expires.
  pub complete_relay_enrollment-IsSpent :
      (document : Value) (id : String) (e : ℕ) (d : Disk)
      → draw.now < e
      → IsSpent id e d
      → IsSpent id e (complete_relay_enrollment p draw document d).1
  unfolding complete_relay_enrollment
  complete_relay_enrollment-IsSpent document id e d h hd =
      let d' = (ensure_identity p draw d).1 in
      let same = ap (λ x. (state_of x).used_challenges) (state-ensure_identity p draw d) in
      let hd' = IsSpent_of_used id e same hd in
      continue-keeps (IsSpent id e) (read_request p document)
        (λ r. ensure_identity p draw >>= complete_as p draw r) d hd
        (λ r _.
          continue-keeps (IsSpent id e) (ensure_identity p draw d).0 (complete_as p draw r) d' hd'
            (λ a _. complete_as-IsSpent r a id e d' h hd'))
