-- ===== src/Enrollment/Replay.antt =====
-- enrollment.py: a relay challenge enrolls at most once, over any sequence of commands.
pub mod Keeps
pub mod Records
use native.Mathlib.Nat.{le_refl}
use printer_hmi_remote.Prelude.{
  ℕ, ◌≤◌, ◌<◌, String, ◌≡◌, ◌≢◌, inl, inr, Bool, false, not, Option, none, some, List, [], ◌∷◌,
  arith, ok, str_eq, eq_iff, leb, Option-cases, Bool-cases, subst, sym, ap, All, ◌∙◌, eq_refl,
}
use printer_hmi_remote.Action.{
  continue-keeps, check-keeps, continue-ensures, check-ensures, ◌>>=◌, ◌>>◌,
}
use printer_hmi_remote.Json.{Value, Fields, get}
use printer_hmi_remote.Dict
use printer_hmi_remote.Dict.{Dict, lookup-insert, lookup-keep_of_pass}
use printer_hmi_remote.Codec.Base64.{Bytes}
use printer_hmi_remote.Codec.Time.{parse_timestamp}
use printer_hmi_remote.Platform.{Platform}
use printer_hmi_remote.Enrollment.Types.{Identity, Peer, UsedChallenge, State, Disk, Draw}
use printer_hmi_remote.Enrollment.Operations.{
  bad_time, identity, sign, create_pairing, consume_pairing, sign_relay_challenge, list_peers,
  revoke_peer,
}
use printer_hmi_remote.Enrollment.Request.{Request, read_request}
use printer_hmi_remote.Enrollment.Challenge.{validate_relay_challenge}
use printer_hmi_remote.Enrollment.Challenge.Facts.{
  expiry, fields_of, validate_document, validate_expiry,
}
use printer_hmi_remote.Enrollment.Store.{
  consume_pairing_locked, prune_used_challenges, ensure_identity,
}
use printer_hmi_remote.Enrollment.Complete.{
  enroll_with, check_proof, record_enrollment, complete_as, complete_relay_enrollment, text_of,
}
use printer_hmi_remote.Enrollment.Frames.{
  used_of, state_of, used-consume_pairing_locked, result_used-consume_pairing_locked,
  state-ensure_identity, used-identity, used-list_peers, used-sign, used-create_pairing,
  used-consume_pairing, used-sign_relay_challenge, used-revoke_peer,
}
use printer_hmi_remote.Enrollment.Replay.Keeps.{
  LiveUntil, IsSpent, unrecorded_differs, IsSpent_of_used, prune_used_challenges-LiveUntil,
  state-check_proof, complete_relay_enrollment-IsSpent,
}
use printer_hmi_remote.Enrollment.Replay.Records.{
  challenge_of, challenge_id_of, complete_relay_enrollment-records,
  complete_relay_enrollment-refuses,
}

-- What can be asked of the store, but for the rotation of its identity.
pub data Command : Type 0 where
  show_identity list_all : Command
  sign_payload : Bytes → Command
  offer_pairing : ℕ → Command
  pair : Value → Value → Value → Value → Command
  sign_challenge complete : Value → Command
  revoke : String → Command

module _ (p : Platform) where
  unfoldable pub step : Command → Draw → Disk → Disk
  step show_identity draw d = (identity p draw d).1
  step list_all draw d = (list_peers p draw d).1
  step (sign_payload payload) draw d = (sign p draw payload d).1
  step (offer_pairing ttl) draw d = (create_pairing p draw ttl d).1
  step (pair pid code peer key) draw d = (consume_pairing p draw pid code peer key d).1
  step (sign_challenge challenge) draw d = (sign_relay_challenge p draw challenge d).1
  step (complete document) draw d = (complete_relay_enrollment p draw document d).1
  step (revoke peer_id) draw d = (revoke_peer p draw peer_id d).1

  unfoldable pub run : List (Command × Draw) → Disk → Disk
  unfolding step
  run [] d = d
  run ((c, draw) ∷ rest) d = run rest (step c draw d)

  step-IsSpent :
      (c : Command) (draw : Draw) (id : String) (e : ℕ) (d : Disk)
      → draw.now < e
      → IsSpent id e d
      → IsSpent id e (step c draw d)
  unfolding step
  step-IsSpent show_identity draw id e d h s = IsSpent_of_used id e (used-identity p draw d) s
  step-IsSpent list_all draw id e d h s = IsSpent_of_used id e (used-list_peers p draw d) s
  step-IsSpent (sign_payload payload) draw id e d h s =
      IsSpent_of_used id e (used-sign p draw payload d) s
  step-IsSpent (offer_pairing ttl) draw id e d h s =
      IsSpent_of_used id e (used-create_pairing p draw ttl d) s
  step-IsSpent (pair pid code peer key) draw id e d h s =
      IsSpent_of_used id e (used-consume_pairing p draw pid code peer key d) s
  step-IsSpent (sign_challenge challenge) draw id e d h s =
      IsSpent_of_used id e (used-sign_relay_challenge p draw challenge d) s
  step-IsSpent (complete document) draw id e d h s =
      complete_relay_enrollment-IsSpent p draw document id e d h s
  step-IsSpent (revoke peer_id) draw id e d h s =
      IsSpent_of_used id e (used-revoke_peer p draw peer_id d) s

  run-IsSpent :
      (cs : List (Command × Draw)) (now : ℕ) (id : String) (e : ℕ) (d : Disk)
      → All (λ (c : Command × Draw). c.1.now ≤ now) cs
      → now < e
      → IsSpent id e d
      → IsSpent id e (run cs d)
  unfolding run
  run-IsSpent [] now id e d b h s = s
  run-IsSpent ((c, draw) ∷ cs) now id e d b h s =
      run-IsSpent cs now id e (step c draw d) b.1 h
        (unfold step in step-IsSpent c draw id e d (omega arith) s)

  -- Once an enrollment is completed, no request with the same challenge is completed again: not after
  -- any further commands other than a rotation of the identity, at any time that is no earlier than
  -- theirs, and whatever else the request holds. (An expired challenge is refused for that.)
  pub no_replay :
      (first second : Value) (draw draw' : Draw) (cs : List (Command × Draw)) (d : Disk)
      {v w : Value}
      → (complete_relay_enrollment p draw first d).0 ≡ ok v
      → challenge_of second ≡ challenge_of first
      → All (λ (c : Command × Draw). c.1.now ≤ draw'.now) cs
      → (complete_relay_enrollment p draw' second
          (run cs (complete_relay_enrollment p draw first d).1)).0
        ≢ ok w
  no_replay first second draw draw' cs d done same times =
      let after = (complete_relay_enrollment p draw first d).1 in
      complete_relay_enrollment-refuses p draw' second (run cs after) (
        subst
          (λ x.
            draw'.now < expiry p (fields_of x)
            → IsSpent (challenge_id_of x) (expiry p (fields_of x)) (run cs after))
          (sym same)
          (λ h.
            run-IsSpent cs draw'.now _ _ after times h
              (complete_relay_enrollment-records p draw first d done)))
