-- ===== src/Enrollment/Store.antt =====
-- enrollment.py: the parts of `EnrollmentStore` that run under the lock of the directory.
use printer_hmi_remote.Prelude.{
  ℕ, ◌-◌, String, Bool, true, false, not, Option, none, some, [], ◌∷◌, ◌++◌, ◌==◌, str_eq, leb,
  length, if◌then◌else◌, Error, enrollment,
}
use printer_hmi_remote.Prelude.Int.{pos}
use printer_hmi_remote.Action.{Action, pure, raise, lift, gets, modify, check, ◌>>=◌, ◌>>◌}
use printer_hmi_remote.Json.{int, str, Fields, end, field}
use printer_hmi_remote.Dict
use printer_hmi_remote.Dict.{Dict}
use printer_hmi_remote.Codec.Base64
use printer_hmi_remote.Codec.Base64.{Bytes}
use printer_hmi_remote.Codec.Time.{timestamp}
use printer_hmi_remote.Platform.{Platform}
use printer_hmi_remote.Enrollment.Types.{
  Identity, Pairing, Peer, UsedChallenge, State, empty_state, Disk, Draw,
}
use printer_hmi_remote.Enrollment.Keys.{
  b64decode, bytes_eq, bad_code, device_id, fingerprint, code_digest,
}

abbrev pub bad_encoding : Error
bad_encoding = enrollment "invalid encoded value"

module _ (p : Platform) (draw : Draw) where
  -- `_audit_locked`
  unfoldable pub audit : String → String → Fields → Action Disk Unit
  audit event outcome details = modify λ (d : Disk). record d {
    audit =
        d.audit
        ++ (record {
          at_time = timestamp p draw.now;
          event = event;
          outcome = outcome;
          details = details;
        }
            ∷ []);
  }

  -- `self._write_json(self.state_path, state)`
  unfoldable pub write_state : State → Action Disk Unit
  write_state state = modify λ (d : Disk). record d { state = some state }

  -- `_load_state_locked`
  abbrev or_empty : Option State → State
  or_empty none = empty_state
  or_empty (some state) = state

  unfoldable pub load_state : Action Disk State
  load_state = gets λ (d : Disk). or_empty d.state

  -- `_generate_identity_locked`
  unfoldable pub generate_identity : ℕ → Action Disk (Identity × Bytes)
  unfolding audit
  generate_identity generation = do
    let public_bytes = p.public_key draw.private_key
    let identity : Identity = record {
      device_id = device_id p public_bytes;
      public_key = Base64.encode public_bytes;
      private_key = Base64.encode draw.private_key;
      fingerprint = fingerprint p public_bytes;
      generation = generation;
      created_at = timestamp p draw.now;
    }
    modify λ (d : Disk). record d { identity = some identity }
    audit "identity.created" "success"
        (field "device_id" (str identity.device_id) (field "generation" (int (pos generation)) end))
    pure (identity, draw.private_key)

  -- The checks of a stored identity.
  unfoldable pub load_identity : Identity → Action Disk (Identity × Bytes)
  load_identity identity = do
    private_bytes ← lift (b64decode bad_encoding (str identity.private_key))
    check (not (length private_bytes == 32)) (enrollment "stored device key is invalid")
    let public_bytes = p.public_key private_bytes
    check (not (str_eq (Base64.encode public_bytes) identity.public_key))
        (enrollment "stored device identity does not match its key")
    check (not (str_eq (device_id p public_bytes) identity.device_id))
        (enrollment "stored device identifier is invalid")
    pure (identity, private_bytes)

  -- `_ensure_identity_locked`
  unfoldable pub ensure_identity : Action Disk (Identity × Bytes)
  unfolding generate_identity load_identity
  ensure_identity = do
    stored ← gets λ (d : Disk). d.identity
    elim stored [ none ↦ generate_identity 1 | some identity ↦ load_identity identity ]

  -- `_prune_expired_locked`
  unfoldable pub prune_expired : State → State
  prune_expired state = record state {
    pairings = Dict.keep (λ (e : Pairing). not (leb e.expires_epoch draw.now)) state.pairings;
  }

  -- `_prune_used_challenges_locked`
  unfoldable pub prune_used_challenges : State → State
  prune_used_challenges state = record state {
    used_challenges =
        Dict.keep (λ (e : UsedChallenge). not (leb e.expires_epoch draw.now)) state.used_challenges;
  }

  -- The state is written, the rejection is audited, and the error raised.
  unfoldable pub reject : State → Fields → Error → Action Disk (Peer × State)
  unfolding write_state audit
  reject state details e = do
    write_state state
    audit "pairing.consumed" "rejected" details
    raise e

  abbrev without_pairing : State → String → State
  without_pairing state pairing_id = record state {
    pairings = Dict.erase pairing_id state.pairings;
  }

  -- A wrong code costs an attempt; the last one costs the pairing.
  unfoldable pub spend_attempt : State → String → Pairing → State
  spend_attempt state pairing_id pairing =
      let left = pairing.attempts_remaining - 1 in
      if leb left 0 then without_pairing state pairing_id else record state {
        pairings =
            Dict.insert pairing_id (record pairing { attempts_remaining = left }) state.pairings;
      }

  abbrev pub is_active : Option Peer → Bool
  is_active none = false
  is_active (some peer) = elim peer.revoked_at [ none ↦ true | some _ ↦ false ]

  abbrev pub candidate_digest : String → Bytes → Bytes
  candidate_digest normalized_code salt =
      if str_eq normalized_code "" then draw.junk else code_digest p normalized_code salt

  unfoldable pub enroll_peer : State → String → String → Bytes → Bool → Action Disk (Peer × State)
  unfolding write_state audit
  enroll_peer state pairing_id peer_id key persist_success = do
    let peer : Peer = record {
      peer_id = peer_id;
      public_key = Base64.encode key;
      fingerprint = fingerprint p key;
      paired_at = timestamp p draw.now;
      revoked_at = none;
    }
    let state' : State = record (without_pairing state pairing_id) {
      peers = Dict.insert peer_id peer state.peers;
    }
    if persist_success
        then (do
          write_state state'
          audit "pairing.consumed" "success" (
              field "pairing_id" (str pairing_id) (
                field "peer_id" (str peer_id)
                  (field "peer_fingerprint" (str peer.fingerprint) end)))
          pure (peer, state'))
        else pure (peer, state')

  unfoldable pub check_code :
      State → String → String → String → Bytes → Bool → Pairing → Action Disk (Peer × State)
  unfolding reject spend_attempt enroll_peer
  check_code state pairing_id normalized_code peer_id key persist_success pairing = do
    salt ← lift (b64decode bad_encoding (str pairing.salt))
    expected ← lift (b64decode bad_encoding (str pairing.code_digest))
    if not (bytes_eq (candidate_digest normalized_code salt) expected)
        then reject (spend_attempt state pairing_id pairing)
            (field "pairing_id" (str pairing_id) end) bad_code
        else if is_active (Dict.lookup peer_id state.peers)
        then reject (without_pairing state pairing_id)
            (field "pairing_id" (str pairing_id) (field "peer_id" (str peer_id) end))
            (enrollment "peer is already enrolled")
        else enroll_peer state pairing_id peer_id key persist_success

  -- `_consume_pairing_locked`, with the state as the caller has it in memory. It returns the new peer
  -- and that state as changed.
  unfoldable pub consume_pairing_locked :
      State → String → String → String → Bytes → Bool → Action Disk (Peer × State)
  unfolding reject check_code
  consume_pairing_locked state pairing_id normalized_code peer_id key persist_success =
      elim (Dict.lookup pairing_id state.pairings) [
        | none ↦
            reject (without_pairing state pairing_id) (field "pairing_id" (str pairing_id) end)
              bad_code
        | some pairing ↦
            if leb pairing.expires_epoch draw.now
            then reject (without_pairing state pairing_id) (field "pairing_id" (str pairing_id) end)
                bad_code
            else check_code state pairing_id normalized_code peer_id key persist_success pairing
      ]
