-- ===== src/Enrollment/Pairings.antt =====
-- enrollment.py: how long a pairing code can be used.
use printer_hmi_remote.Prelude.{
  ◌-◌, ◌<◌, String, ◌≡◌, ◌≢◌, sym, ap, subst, true, false, Option, none, some, arith, ok, err,
  eq_refl, ◌∙◌, leb, if◌then◌else◌,
}
use printer_hmi_remote.Action.{Action, pure, ◌>>=◌, continue-eq-ok, continue-ensures}
use printer_hmi_remote.Json.{Value, str}
use printer_hmi_remote.Dict
use printer_hmi_remote.Dict.{Dict, lookup-insert, lookup-erase}
use printer_hmi_remote.Codec.Base64.{Bytes}
use printer_hmi_remote.Platform.{Platform}
use printer_hmi_remote.Enrollment.Types.{Pairing, Peer, State, Disk, Draw}
use printer_hmi_remote.Enrollment.Keys.{b64decode, bad_code, bytes_eq}
use printer_hmi_remote.Enrollment.Store.{
  bad_encoding, ensure_identity, spend_attempt, candidate_digest, consume_pairing_locked,
}
use printer_hmi_remote.Enrollment.Request.{read_arguments}
use printer_hmi_remote.Enrollment.Operations.{consume_with, consume_pairing}
use printer_hmi_remote.Enrollment.Signed.{normalized_or_blank}
use printer_hmi_remote.Enrollment.Frames.{state_of, state-ensure_identity}

-- The pairing as the directory holds it.
abbrev pub pairing_of : String → Disk → Option Pairing
pairing_of id d = Dict.lookup id (state_of d.state).pairings

module _ (p : Platform) (draw : Draw) where
  consume_pairing_locked-consumes :
      (state : State) (id code peer_id : String) (key : Bytes) (d : Disk) (r : Peer × State)
      → (consume_pairing_locked p draw state id code peer_id key true d).0 ≡ ok r
      → pairing_of id (consume_pairing_locked p draw state id code peer_id key true d).1 ≡ none
  unfolding consume_pairing_locked
  consume_pairing_locked-consumes state id code peer_id key d r h =
      ground (arith, lookup-erase id id state.pairings, eq_refl id)

  consume_pairing_locked-refuses :
      (state : State) (id code peer_id : String) (key : Bytes) (d : Disk)
      → Dict.lookup id state.pairings ≡ none
      → (consume_pairing_locked p draw state id code peer_id key true d).0 ≡ err bad_code
  unfolding consume_pairing_locked
  consume_pairing_locked-refuses state id code peer_id key d h = ground arith

  -- A wrong code for a pairing that has not expired is refused and costs one of its attempts; with the
  -- last of them the pairing goes.
  pub consume_pairing_locked-spends :
      (state : State) (id code peer_id : String) (key : Bytes) (d : Disk) (pairing : Pairing)
      (salt expected : Bytes)
      → Dict.lookup id state.pairings ≡ some pairing
      → draw.now < pairing.expires_epoch
      → b64decode bad_encoding (str pairing.salt) ≡ ok salt
      → b64decode bad_encoding (str pairing.code_digest) ≡ ok expected
      → bytes_eq (candidate_digest p draw code salt) expected ≡ false
      → ((consume_pairing_locked p draw state id code peer_id key true d).0 ≡ err bad_code)
        × (pairing_of id (consume_pairing_locked p draw state id code peer_id key true d).1 ≡ (
            if leb pairing.attempts_remaining 1
            then none
            else some (record pairing { attempts_remaining = pairing.attempts_remaining - 1 })))
  unfolding consume_pairing_locked spend_attempt
  consume_pairing_locked-spends state id code peer_id key d pairing salt expected found live hs he
        wrong =
      (
        ground arith,
        ground (
          arith,
          lookup-erase id id state.pairings,
          lookup-insert id id
              (record pairing { attempts_remaining = pairing.attempts_remaining - 1 })
              state.pairings,
          eq_refl id,
        ),
      )

  -- The consumption of a pairing from the state that the directory holds.
  abbrev locked : String → String → String → Bytes → Disk → Action Disk (Peer × State)
  locked id code peer_id key d =
      consume_pairing_locked p draw (state_of d.state) id code peer_id key true

  consume_with-consumes :
      (id code peer_id : String) (key : Bytes) (d : Disk) (r : Peer)
      → (consume_with p draw id code peer_id key d).0 ≡ ok r
      → pairing_of id (consume_with p draw id code peer_id key d).1 ≡ none
  unfolding consume_with
  consume_with-consumes id code peer_id key d r h =
      let d' = (ensure_identity p draw d).1 in
      continue-ensures (λ (e : Disk). pairing_of id e ≡ none) (ensure_identity p draw d).0
        (λ _ e. (locked id code peer_id key e >>= λ r. pure r.0) e) d'
        (λ _ _.
          continue-ensures (λ (e : Disk). pairing_of id e ≡ none)
            (locked id code peer_id key d' d').0 (λ r. pure r.0) _
            (λ r found _.
              consume_pairing_locked-consumes (state_of d'.state) id code peer_id key d' r found))
        h

  consume_with-refuses :
      (id code peer_id : String) (key : Bytes) (d : Disk) (r : Peer)
      → pairing_of id d ≡ none
      → (consume_with p draw id code peer_id key d).0 ≢ ok r
  unfolding consume_with
  consume_with-refuses id code peer_id key d r gone h =
      let d' = (ensure_identity p draw d).1 in
      let same = ap (λ x. Dict.lookup id (state_of x).pairings) (state-ensure_identity p draw d) in
      let (_, _, h1) =
        continue-eq-ok (ensure_identity p draw d).0
          (λ _ e. (locked id code peer_id key e >>= λ r. pure r.0) e) d' h in
      let (_, found, _) =
        continue-eq-ok (locked id code peer_id key d' d').0 (λ r. pure r.0) _ h1 in
      let refused =
        consume_pairing_locked-refuses (state_of d'.state) id code peer_id key d' (same ∙ gone) in
      cc

module _ (p : Platform) where
  read_arguments_pairing :
      (pairing peer key : Value) (a : String × String × Bytes)
      → read_arguments p pairing peer key ≡ ok a
      → pairing ≡ str a.0
  unfolding read_arguments
  read_arguments_pairing pairing peer key a h = ground arith

  -- Of a pairing that is not there, nothing is consumed.
  consume_pairing-refuses :
      (draw : Draw) (id : String) (pairing code peer key : Value) (d : Disk) (r : Peer)
      → pairing ≡ str id
      → pairing_of id d ≡ none
      → (consume_pairing p draw pairing code peer key d).0 ≢ ok r
  unfolding consume_pairing
  consume_pairing-refuses draw id pairing code peer key d r named gone h =
      let ((id', peer_id, k), e, h1) =
        continue-eq-ok (read_arguments p pairing peer key)
          (λ a. consume_with p draw a.0 (normalized_or_blank p code) a.1 a.2) d h in
      let same : id ≡ id' =
        let e' = sym named ∙ read_arguments_pairing pairing peer key _ e in cc in
      consume_with-refuses p draw id' _ peer_id k d r (subst (λ x. pairing_of x d ≡ none) same gone)
        h1

  -- A pairing enrolls one peer: after `consume_pairing` has returned for it, the next `consume_pairing`
  -- of the same pairing does not return, with whatever code, for whatever peer and key.
  pub consume_pairing-once :
      (draw draw' : Draw) (pairing code peer key code' peer' key' : Value) (d : Disk)
      (enrolled again : Peer)
      → (consume_pairing p draw pairing code peer key d).0 ≡ ok enrolled
      → (consume_pairing p draw' pairing code' peer' key'
          (consume_pairing p draw pairing code peer key d).1).0
        ≢ ok again
  unfolding consume_pairing
  consume_pairing-once draw draw' pairing code peer key code' peer' key' d enrolled again h1 =
      continue-ensures
        (λ (e : Disk). (consume_pairing p draw' pairing code' peer' key' e).0 ≢ ok again)
        (read_arguments p pairing peer key)
        (λ a. consume_with p draw a.0 (normalized_or_blank p code) a.1 a.2) d
        (λ a read done.
          consume_pairing-refuses draw' a.0 pairing code' peer' key' _ again
            (read_arguments_pairing pairing peer key a read)
            (consume_with-consumes p draw a.0 _ a.1 a.2 d _ done))
        h1
