-- ===== src/Configuration/Consistent.antt =====
-- The directory stays usable: the configuration and the state load and agree after every command.
use printer_hmi_remote.Prelude.{◌≡◌, refl, true, Option, some, arith, ok}
use printer_hmi_remote.Json.{Value, obj, Fields, insert, member, same_keys}
use printer_hmi_remote.Json.Laws.{lookup-insert}
use printer_hmi_remote.Json.Keys.{same_keys-insert, has_of_same_keys}
use printer_hmi_remote.Platform.{Platform}
use printer_hmi_remote.Configuration.Directory.{read_json}
use printer_hmi_remote.Configuration.Load.{state_fields, check_identity, load_state}

-- The state with other pending challenges.
abbrev pub with_challenges : Fields → Fields → Fields
with_challenges pending fs = insert "pending_challenges" (obj pending) fs

module _ (p : Platform) where
  check_identity-with_challenges :
      (pending fs : Fields) → check_identity p (with_challenges pending fs) ≡ check_identity p fs
  unfolding check_identity
  check_identity-with_challenges pending fs =
      rw
        (
          lookup-insert "pending_challenges" "peer_private_key" (obj pending) fs,
          lookup-insert "pending_challenges" "peer_public_key" (obj pending) fs,
        )
        refl

  pub load_state-read :
      (read : Option Value) (fs : Fields) → load_state p read ≡ ok fs → read ≡ some (obj fs)
  unfolding load_state read_json
  load_state-read read fs h = ground arith

  same_keys-with_challenges :
      (read : Option Value) (pending fs : Fields)
      → load_state p read ≡ ok fs
      → same_keys (with_challenges pending fs) state_fields ≡ true
  unfolding load_state read_json member
  same_keys-with_challenges read pending fs h =
      let e : same_keys fs state_fields ≡ true = ground arith in
      rw
        (same_keys-insert "pending_challenges" (obj pending) fs state_fields
          (has_of_same_keys "pending_challenges" fs state_fields e refl))
        e

  -- What the state holds beside its challenges is checked as before.
  pub load_state-with_challenges :
      (read : Option Value) (pending fs : Fields)
      → load_state p read ≡ ok fs
      → load_state p (some (obj (with_challenges pending fs))) ≡ ok (with_challenges pending fs)
  unfolding load_state read_json
  load_state-with_challenges read pending fs h = ground (
    arith,
    same_keys-with_challenges read pending fs h,
    check_identity-with_challenges pending fs,
    lookup-insert "pending_challenges" "schema_version" (obj pending) fs,
    lookup-insert "pending_challenges" "relay_id" (obj pending) fs,
    lookup-insert "pending_challenges" "peer_id" (obj pending) fs,
    lookup-insert "pending_challenges" "pending_challenges" (obj pending) fs,
  )
