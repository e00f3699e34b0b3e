-- ===== src/Configuration/Once.antt =====
-- A receipt is taken once: the challenge that it answers is no longer pending.
use printer_hmi_remote.Prelude.{
  ◌≡◌, refl, Option, some, arith, ok, err, Result-cases, inl, inr, subst, >>=-eq-ok,
}
use printer_hmi_remote.Action.{continue-ensures}
use printer_hmi_remote.Json.{Value, null, bool, int, float, str, arr, obj, Fields, get, pop}
use printer_hmi_remote.Json.Laws.{IsJson, IsJsonFields, lookup-insert}
use printer_hmi_remote.Json.Keys.{get-IsJson, lookup-pop}
use printer_hmi_remote.Platform.{Platform}
use printer_hmi_remote.Receiver.Config.{load}
use printer_hmi_remote.Configuration.Directory.{
  Directory, World, files_of, read_json, set_state, write,
}
use printer_hmi_remote.Configuration.Load.{
  load_state, check_config, load_config, parse_config, text_of,
}
use printer_hmi_remote.Configuration.Save.{checked}
use printer_hmi_remote.Configuration.Consistent.{
  with_challenges, load_state-with_challenges, load_state-read,
}
use printer_hmi_remote.Configuration.Invariant.{
  IsConsistent, Holds, write-IsConsistent, enroll_device-Holds,
}
use printer_hmi_remote.Configuration.Request.{fields_of}
use printer_hmi_remote.Configuration.Receipt.{
  read_verified, read_receipt, check_pending, get_hashed, no_pending, without_pending,
}
use printer_hmi_remote.Configuration.Manage.{enroll_device, add_receipt}

fields_of-IsJson : (v : Value) → IsJson v → IsJsonFields (fields_of v)
unfolding IsJson
fields_of-IsJson (obj fs) h = h
fields_of-IsJson null h = tt
fields_of-IsJson (bool b) h = tt
fields_of-IsJson (int n) h = tt
fields_of-IsJson (float m) h = tt
fields_of-IsJson (str s) h = tt
fields_of-IsJson (arr xs) h = tt

-- A challenge that was pending is not, once popped.
get_hashed-pop :
    (cid : Value) (pending verified : Fields) (found : Value)
    → IsJsonFields pending
    → get_hashed cid pending ≡ ok found
    → check_pending found verified ≡ ok tt
    → get_hashed cid (pop (text_of cid) pending) ≡ ok null
unfolding get_hashed check_pending
get_hashed-pop (str k) pending verified found h e c = rw (lookup-pop k pending h) refl
get_hashed-pop (arr xs) pending verified found h e c = absurd (ground arith)
get_hashed-pop (obj fs) pending verified found h e c = absurd (ground arith)
get_hashed-pop null pending verified found h e c = refl
get_hashed-pop (bool b) pending verified found h e c = refl
get_hashed-pop (int n) pending verified found h e c = refl
get_hashed-pop (float m) pending verified found h e c = refl

check_pending-null : (verified : Fields) → check_pending null verified ≡ err no_pending
unfolding check_pending
check_pending-null verified = refl

module _ (p : Platform) where
  read_verified-without_pending :
      (file : Option Value) (fs pending : Fields)
      → read_verified p file (with_challenges pending fs) ≡ read_verified p file fs
  unfolding read_verified
  read_verified-without_pending file fs pending =
      rw
        (
          lookup-insert "pending_challenges" "relay_id" (obj pending) fs,
          lookup-insert "pending_challenges" "peer_id" (obj pending) fs,
          lookup-insert "pending_challenges" "peer_public_key" (obj pending) fs,
        )
        refl

  read_receipt-without_pending :
      (file : Option Value) (fs verified : Fields)
      → IsJsonFields fs
      → read_receipt p file fs ≡ ok verified
      → read_receipt p file (without_pending fs verified) ≡ err no_pending
  unfolding read_receipt without_pending
  read_receipt-without_pending file fs verified h e =
      let pending = fields_of (get "pending_challenges" fs) in
      let distinct = fields_of-IsJson _ (get-IsJson "pending_challenges" fs h) in
      let (v, reads, e1) = >>=-eq-ok (read_verified p file fs) _ e in
      let (found, hashed, e2) = >>=-eq-ok (get_hashed (get "challenge_id" v) pending) _ e1 in
      let (u, answers, e3) = >>=-eq-ok (check_pending found v) _ e2 in
      let same : v ≡ verified = cc e3 in
      let rest = pop (text_of (get "challenge_id" verified)) pending in
      let gone : get_hashed (get "challenge_id" verified) rest ≡ ok null =
        subst
          (λ x.
            get_hashed (get "challenge_id" x) (pop (text_of (get "challenge_id" x)) pending)
            ≡ ok null)
          same (get_hashed-pop (get "challenge_id" v) pending v found distinct hashed answers) in
      rw
        (
          read_verified-without_pending file fs rest,
          reads,
          same,
          lookup-insert "pending_challenges" "pending_challenges" (obj rest) fs,
          gone,
          check_pending-null verified,
        )
        refl

module _ (p : Platform) (w : World) where
  abbrev IsRefused : Option Value → Directory → Type 0
  IsRefused file d = (add_receipt p w file d).0 ≡ err no_pending

  -- A configuration that passes the checks is read.
  load_config-IsConsistent :
      (d : Directory)
      → IsConsistent p w d
      → (fs : Fields) × (load_config p d.config d.state (files_of w d) ≡ ok fs)
  unfolding load_config check_config read_json load parse_config
  load_config-IsConsistent d (c, e) =
      elim (Result-cases (load_config p d.config d.state (files_of w d))) [
        | inl found ↦ found
        | inr (error, fails) ↦ absurd (ground arith)
      ]

  IsConsistent-load_config :
      (d : Directory) (fs : Fields)
      → load_config p d.config d.state (files_of w d) ≡ ok fs
      → IsConsistent p w d
  unfolding load_config
  IsConsistent-load_config d fs h = elim (Result-cases (checked p w d)) [
    | inl found ↦ found
    | inr (error, fails) ↦ absurd (ground arith)
  ]

  add_receipt-IsRefused :
      (file : Option Value) (fs : Fields) (d : Directory)
      → Holds p w fs d
      → read_receipt p file fs ≡ err no_pending
      → IsRefused file d
  unfolding add_receipt
  add_receipt-IsRefused file fs d (loads, h) refuses =
      rw (loads, (load_config-IsConsistent d h).1, refuses) refl

  write-state :
      (fs : Fields) (d : Directory)
      → (write (set_state fs) d).0 ≡ ok tt
      → (write (set_state fs) d).1.state ≡ some (obj fs)
  unfolding write
  write-state fs d h = ground arith

  load_state-without_pending :
      (fs verified : Fields) (d : Directory)
      → load_state p d.state ≡ ok fs
      → (write (set_state (without_pending fs verified)) d).0 ≡ ok tt
      → load_state p (write (set_state (without_pending fs verified)) d).1.state
        ≡ ok (without_pending fs verified)
  unfolding without_pending
  load_state-without_pending fs verified d loads written =
      rw (write-state _ d written) (load_state-with_challenges p d.state _ fs loads)

  without_pending-Holds :
      (fs verified : Fields) (d : Directory)
      → Holds p w fs d
      → IsConsistent p w (write (set_state (without_pending fs verified)) d).1
  unfolding without_pending
  without_pending-Holds fs verified d h = write-IsConsistent p w fs _ d h

  state-IsJsonFields :
      (d : Directory) (state : Value) (fs : Fields)
      → d.state ≡ some state
      → IsJson state
      → load_state p d.state ≡ ok fs
      → IsJsonFields fs
  unfolding IsJson
  state-IsJsonFields d state fs e j loads =
      let read = load_state-read p d.state fs loads in
      subst IsJson (let same : state ≡ obj fs = cc (e, read) in same) j

  -- A receipt is taken once: after `add_receipt` has returned for a receipt, the same receipt is refused
  -- as answering no pending challenge. The objects of the state file have distinct keys.
  pub add_receipt-once :
      (file : Option Value) (d : Directory) (state v : Value)
      → d.state ≡ some state
      → IsJson state
      → (add_receipt p w file d).0 ≡ ok v
      → (add_receipt p w file (add_receipt p w file d).1).0 ≡ err no_pending
  unfolding add_receipt
  add_receipt-once file d state v e j =
      continue-ensures (IsRefused file) (load_state p d.state) _ d λ fs loads.
        continue-ensures (IsRefused file) (load_config p d.config d.state (files_of w d)) _ d
          λ config loaded.
            continue-ensures (IsRefused file) (read_receipt p file fs) _ d λ verified reads.
              let (r, d1) = enroll_device p w config verified d in
              let h1 =
                enroll_device-Holds p w fs config verified d
                  (loads, IsConsistent-load_config d config loaded) in
              continue-ensures (IsRefused file) r _ d1 λ enrolled _.
                let after = without_pending fs verified in
                let (r2, d2) = write (set_state after) d1 in
                continue-ensures (IsRefused file) r2 _ d2 λ u written.
                  continue-ensures (IsRefused file) (parse_config p d2.config (files_of w d2)) _ d2
                    λ c parsed done.
                      add_receipt-IsRefused file after d2
                        (
                          load_state-without_pending fs verified d1 h1.0 written,
                          without_pending-Holds fs verified d1 h1,
                        )
                        (read_receipt-without_pending p file fs verified
                          (state-IsJsonFields d state fs e j loads) reads)
