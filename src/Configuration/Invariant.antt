-- ===== src/Configuration/Invariant.antt =====
-- What each operation of the manager keeps of a directory whose configuration and state agree.
use printer_hmi_remote.Prelude.{
  ◌≡◌, String, Option, arith, configuration, Result, ok, Result-cases, inl, inr,
}
use printer_hmi_remote.Action.{continue, continue-keeps, check-keeps, if-keeps, pure, ◌>>◌}
use printer_hmi_remote.Json.{Value, arr, obj, Fields, get, insert}
use printer_hmi_remote.Json.Laws.{lookup-insert}
use printer_hmi_remote.Platform.{Platform}
use printer_hmi_remote.Receiver.Config.{ReceiverConfig}
use printer_hmi_remote.Configuration.Directory.{
  Directory, World, files_of, set_state, write, write_output,
}
use printer_hmi_remote.Configuration.Load.{load_state, check_config, load_config, parse_config}
use printer_hmi_remote.Configuration.Save.{checked, save_config, save_config-atomic}
use printer_hmi_remote.Configuration.Consistent.{with_challenges, load_state-with_challenges}
use printer_hmi_remote.Configuration.Request.{
  Fresh, read_offer, check_expiry, request_of, with_pending,
}
use printer_hmi_remote.Configuration.Receipt.{
  read_receipt, without_pending, find_device, is_null, device_of, append_item, sort_items,
}
use printer_hmi_remote.Configuration.Manage.{
  status, store_device, enroll_device, conflicts, add_receipt, create_enrollment_request,
  devices_of,
}

module _ (p : Platform) (w : World) where
  -- The configuration and the state of the directory load, with one relay identifier.
  abbrev pub IsConsistent : Directory → Type 0
  IsConsistent d = (c : ReceiverConfig) × (checked p w d ≡ ok c)

  -- The same, where `fs` is what the state was loaded as.
  abbrev pub Holds : Fields → Directory → Type 0
  Holds fs d = (load_state p d.state ≡ ok fs) × IsConsistent d

  checked_state :
      (c : ReceiverConfig) (d : Directory)
      → checked p w d ≡ ok c
      → (fs : Fields) × (load_state p d.state ≡ ok fs)
  unfolding check_config
  checked_state c d e = elim (Result-cases (load_state p d.state)) [
    | inl found ↦ found
    | inr (error, fails) ↦ absurd (ground arith)
  ]

  save_config-Holds :
      (fs document : Fields) (d : Directory) → Holds fs d → Holds fs (save_config p w document d).1
  save_config-Holds fs document d (loads, (c, e)) =
      let (saved, failed, same_state, same_pems) = save_config-atomic p w document d in
      (
        rw same_state loads,
        elim (Result-cases (save_config p w document d).0) [
          | inl (u, returns) ↦ (saved returns).1
          | inr (error, raises) ↦ (c, rw (failed error raises, same_state, same_pems) e)
        ],
      )

  checked-with_challenges :
      (fs pending : Fields) (c : ReceiverConfig) (d : Directory)
      → load_state p d.state ≡ ok fs
      → checked p w d ≡ ok c
      → checked p w (set_state (with_challenges pending fs) d) ≡ ok c
  unfolding check_config
  checked-with_challenges fs pending c d loads e = ground (
    arith,
    load_state-with_challenges p d.state pending fs loads,
    lookup-insert "pending_challenges" "relay_id" (obj pending) fs,
  )

  pub write-IsConsistent :
      (fs pending : Fields) (d : Directory)
      → Holds fs d
      → IsConsistent (write (set_state (with_challenges pending fs)) d).1
  unfolding write
  write-IsConsistent fs pending d (loads, (c, e)) =
      (c, ground (arith, checked-with_challenges fs pending c d loads e))

  write_output-Holds :
      (fs : Fields) (path : String) (v : Value) (d : Directory)
      → Holds fs d
      → Holds fs (write_output w path v d).1
  unfolding write_output
  write_output-Holds fs path v d (loads, (c, e)) = (ground arith, (c, ground (arith, e)))

  -- A command that returns a document does not change the directory any more.
  unchanged-keeps :
      {A : Type 0} (P : Directory → Type 0) (r : Result A) (v : A → Value) (d : Directory)
      → P d
      → P (continue r (λ a. pure (v a)) d).1
  unchanged-keeps P r v d h = continue-keeps P r (λ a. pure (v a)) d h λ a returns. h

  pub create_enrollment_request-IsConsistent :
      (fresh : Fresh) (offer : Option Value) (output : String) (d : Directory)
      → IsConsistent d
      → IsConsistent (create_enrollment_request p w fresh offer output d).1
  unfolding create_enrollment_request with_pending
  create_enrollment_request-IsConsistent fresh offer output d h =
      continue-keeps IsConsistent (load_state p d.state) _ d h λ fs loads.
        continue-keeps IsConsistent (read_offer p offer) _ d h λ o offered.
          continue-keeps IsConsistent (check_expiry p offer fresh.now) _ d h λ u lasts.
            continue-keeps IsConsistent (request_of p fs o fresh) _ d h λ made signed.
              let path = w.locate output in
              let (r, d1) = write_output w path (obj made.1) d in
              let h1 : Holds fs d1 = write_output-Holds fs path (obj made.1) d (loads, h) in
              continue-keeps IsConsistent r _ d1 h1.1 λ u written.
                let (r2, d2) = write (set_state (with_pending fs made.0 o)) d1 in
                unchanged-keeps IsConsistent r2 _ d2 (write-IsConsistent fs _ d1 h1)

  store_device-Holds :
      (fs config verified : Fields) (d : Directory)
      → Holds fs d
      → Holds fs (store_device p w config verified d).1
  unfolding store_device
  store_device-Holds fs config verified d h =
      let enrolled =
        insert "devices" (arr (sort_items (append_item (devices_of config) (device_of verified))))
          config in
      let (r, d1) = save_config p w enrolled d in
      if-keeps (Holds fs) (is_null (find_device (get "device_id" verified) (devices_of config)))
        (save_config p w enrolled >> pure enrolled) (pure config) d
        (continue-keeps (Holds fs) r (λ u. pure enrolled) d1 (save_config-Holds fs enrolled d h)
          λ u saved. save_config-Holds fs enrolled d h)
        h

  pub enroll_device-Holds :
      (fs config verified : Fields) (d : Directory)
      → Holds fs d
      → Holds fs (enroll_device p w config verified d).1
  unfolding enroll_device
  enroll_device-Holds fs config verified d h =
      check-keeps (Holds fs) (conflicts config verified)
        (configuration "enrolled device key conflict") (store_device p w config verified) d h
        λ agrees. store_device-Holds fs config verified d h

  pub add_receipt-IsConsistent :
      (file : Option Value) (d : Directory)
      → IsConsistent d
      → IsConsistent (add_receipt p w file d).1
  unfolding add_receipt without_pending
  add_receipt-IsConsistent file d h =
      continue-keeps IsConsistent (load_state p d.state) _ d h λ fs loads.
        continue-keeps IsConsistent (load_config p d.config d.state (files_of w d)) _ d h
          λ config _. continue-keeps IsConsistent (read_receipt p file fs) _ d h λ verified _.
            let (r, d1) = enroll_device p w config verified d in
            let h1 : Holds fs d1 = enroll_device-Holds fs config verified d (loads, h) in
            continue-keeps IsConsistent r _ d1 h1.1 λ enrolled _.
              let (r2, d2) = write (set_state (without_pending fs verified)) d1 in
              let h2 = write-IsConsistent fs _ d1 h1 in
              continue-keeps IsConsistent r2 _ d2 h2 λ u _.
                unchanged-keeps IsConsistent (parse_config p d2.config (files_of w d2)) _ d2 h2

  pub status-IsConsistent : (d : Directory) → IsConsistent d → IsConsistent (status p w d).1
  unfolding status
  status-IsConsistent d h =
      continue-keeps IsConsistent (load_state p d.state) _ d h
        λ fs _. unchanged-keeps IsConsistent (load_config p d.config d.state (files_of w d)) _ d h

  -- Saving a configuration and telling the status.
  pub save_and_status-IsConsistent :
      (document : Fields) (d : Directory)
      → IsConsistent d
      → IsConsistent ((save_config p w document >> status p w) d).1
  save_and_status-IsConsistent document d (c, e) =
      let (r, d1) = save_config p w document d in
      let h1 =
        (save_config-Holds (checked_state c d e).0 document d
          ((checked_state c d e).1, (c, e))).1 in
      continue-keeps IsConsistent r (λ u. status p w) d1 h1 λ u saved. status-IsConsistent d1 h1
