-- ===== src/Enrollment/Frames.antt =====
-- What each operation leaves alone: the used challenges change only by a completed enrollment.
use printer_hmi_remote.Prelude.{
  ℕ, String, ◌≡◌, refl, ◌⊎◌, Bool, true, Option, none, some, arith, ok, err,
}
use printer_hmi_remote.Action.{continue}
use printer_hmi_remote.Json.{Value}
use printer_hmi_remote.Dict.{Dict}
use printer_hmi_remote.Codec.Base64.{Bytes}
use printer_hmi_remote.Platform.{Platform}
use printer_hmi_remote.Enrollment.Types.{
  Identity, Peer, UsedChallenge, State, empty_state, Disk, Draw,
}
use printer_hmi_remote.Enrollment.Request.{read_arguments}
use printer_hmi_remote.Enrollment.Signed.{normalized_or_blank}
use printer_hmi_remote.Enrollment.Store.{
  generate_identity, load_identity, ensure_identity, consume_pairing_locked,
}
use printer_hmi_remote.Enrollment.Operations.{
  identity, sign, create_pairing, consume_with, consume_pairing, sign_relay_challenge, list_peers,
  revoke_peer,
}

-- The state that an operation loads.
abbrev pub state_of : Option State → State
state_of none = empty_state
state_of (some state) = state

abbrev pub used_of : Disk → Dict UsedChallenge
used_of d = (state_of d.state).used_challenges

module _ (p : Platform) (draw : Draw) where
  pub state-generate_identity :
      (g : ℕ) (d : Disk) → (generate_identity p draw g d).1.state ≡ d.state
  unfolding generate_identity
  state-generate_identity g d = refl

  pub state-load_identity : (i : Identity) (d : Disk) → (load_identity p draw i d).1 ≡ d
  unfolding load_identity
  state-load_identity i d = ground arith

  pub state-ensure_identity : (d : Disk) → (ensure_identity p draw d).1.state ≡ d.state
  unfolding ensure_identity
  state-ensure_identity d = ground arith

  -- The caller's state is what is written, with its used challenges as they were.
  pub used-consume_pairing_locked :
      (state : State) (pairing_id code peer_id : String) (key : Bytes) (b : Bool) (d : Disk)
      → (used_of (consume_pairing_locked p draw state pairing_id code peer_id key b d).1
          ≡ state.used_challenges)
        ⊎ (used_of (consume_pairing_locked p draw state pairing_id code peer_id key b d).1
            ≡ used_of d)
  unfolding consume_pairing_locked
  used-consume_pairing_locked state pairing_id code peer_id key b d = ground arith

  pub used-identity : (d : Disk) → used_of (identity p draw d).1 ≡ used_of d
  unfolding identity
  used-identity d = ground (arith, state-ensure_identity d)

  pub used-sign : (payload : Bytes) (d : Disk) → used_of (sign p draw payload d).1 ≡ used_of d
  unfolding sign
  used-sign payload d = ground (arith, state-ensure_identity d)

  pub used-create_pairing :
      (ttl : ℕ) (d : Disk) → used_of (create_pairing p draw ttl d).1 ≡ used_of d
  unfolding create_pairing
  used-create_pairing ttl d = ground (arith, state-ensure_identity d)

  used-consume_with :
      (pairing_id code peer_id : String) (key : Bytes) (d : Disk)
      → used_of (consume_with p draw pairing_id code peer_id key d).1 ≡ used_of d
  unfolding consume_with
  used-consume_with pairing_id code peer_id key d =
      let d' = (ensure_identity p draw d).1 in
      ground (
        arith,
        state-ensure_identity d,
        used-consume_pairing_locked (state_of d'.state) pairing_id code peer_id key true d',
      )

  pub used-consume_pairing :
      (pid code peer key : Value) (d : Disk)
      → used_of (consume_pairing p draw pid code peer key d).1 ≡ used_of d
  unfolding consume_pairing
  used-consume_pairing pid code peer key d =
      elim (read_arguments p pid peer key)
        as (λ r.
          used_of
            (continue r (λ a. consume_with p draw a.0 (normalized_or_blank p code) a.1 a.2) d).1
          ≡ used_of d) [
            | ok a ↦ used-consume_with a.0 (normalized_or_blank p code) a.1 a.2 d
            | err e ↦ refl
          ]

  pub used-sign_relay_challenge :
      (challenge : Value) (d : Disk)
      → used_of (sign_relay_challenge p draw challenge d).1 ≡ used_of d
  unfolding sign_relay_challenge
  used-sign_relay_challenge challenge d = ground (arith, state-ensure_identity d)

  pub used-list_peers : (d : Disk) → used_of (list_peers p draw d).1 ≡ used_of d
  unfolding list_peers
  used-list_peers d = ground (arith, state-ensure_identity d)

  pub used-revoke_peer :
      (peer_id : String) (d : Disk) → used_of (revoke_peer p draw peer_id d).1 ≡ used_of d
  unfolding revoke_peer
  used-revoke_peer peer_id d = ground (arith, state-ensure_identity d)

  -- What a call returns beside the new peer: the caller's state with its used challenges.
  pub result_used-consume_pairing_locked :
      (state : State) (pairing_id code peer_id : String) (key : Bytes) (b : Bool) (d : Disk)
      (a : Peer × State)
      → (consume_pairing_locked p draw state pairing_id code peer_id key b d).0 ≡ ok a
      → a.1.used_challenges ≡ state.used_challenges
  unfolding consume_pairing_locked
  result_used-consume_pairing_locked state pairing_id code peer_id key b d a h = ground arith
