-- ===== src/Configuration/Removal.antt =====
-- A device that was removed is gone: what the manager says of it afterwards.
use printer_hmi_remote.Prelude.{
  String, Bool, ◌≡◌, refl, true, not, ◌&&◌, ◌==◌, ==_refl, some, arith, Error, configuration, ok,
  err,
}
use printer_hmi_remote.Action.{continue-ensures, check-ensures, check, ◌>>◌}
use printer_hmi_remote.Json.{Value, arr, obj, Items, nil, cons, Fields, get, insert, truthy}
use printer_hmi_remote.Json.Laws.{lookup-insert}
use printer_hmi_remote.Platform.{Platform}
use printer_hmi_remote.Receiver.Config.{ReceiverConfig, count_items}
use printer_hmi_remote.Configuration.Directory.{Directory, World, files_of, read_json}
use printer_hmi_remote.Configuration.Load.{load_config}
use printer_hmi_remote.Configuration.Save.{checked, save_config, save_config-atomic}
use printer_hmi_remote.Configuration.Manage.{
  status, without_device, devices_of, remove_confirmed, remove_device,
}

abbrev not_found : Error
not_found = configuration "enrolled device was not found"

abbrev in_use : Error
in_use = configuration "disable the receiver before removing its final device"

without_device-without_device :
    (id : String) (xs : Items) → without_device id (without_device id xs) ≡ without_device id xs
unfolding without_device
without_device-without_device id nil = refl
without_device-without_device id (cons x xs) = ground (arith, without_device-without_device id xs)

module _ (p : Platform) (w : World) where
  pub status-store : (d : Directory) → (status p w d).1 ≡ d
  unfolding status
  status-store d = ground arith

  pub load_config_of_checked :
      (fs : Fields) (c : ReceiverConfig) (d : Directory)
      → d.config ≡ some (obj fs)
      → checked p w d ≡ ok c
      → load_config p d.config d.state (files_of w d) ≡ ok fs
  unfolding load_config read_json
  load_config_of_checked fs c d e h = ground arith

  abbrev IsGone : String → Directory → Type 0
  IsGone id d = (remove_confirmed p w id d).0 ≡ err not_found

  saved-IsGone :
      (id : String) (config : Fields) (d : Directory)
      → load_config p d.config d.state (files_of w d)
        ≡ ok (insert "devices" (arr (without_device id (devices_of config))) config)
      → IsGone id d
  unfolding remove_confirmed
  saved-IsGone id config d h =
      let retained = without_device id (devices_of config) in
      ground (
        arith,
        lookup-insert "devices" "devices" (arr retained) config,
        without_device-without_device id (devices_of config),
        ==_refl (count_items retained),
      )

  removed-IsGone :
      (id : String) (d : Directory) {v : Value}
      → (remove_confirmed p w id d).0 ≡ ok v
      → IsGone id (remove_confirmed p w id d).1
  unfolding remove_confirmed
  removed-IsGone id d =
      continue-ensures (IsGone id) (load_config p d.config d.state (files_of w d)) _ d λ config _.
        let retained = without_device id (devices_of config) in
        let document = insert "devices" (arr retained) config in
        let save = save_config p w document >> status p w in
        let final = truthy (get "enabled" config) && not (truthy (arr retained)) in
        let (r, d1) = save_config p w document d in
        check-ensures (IsGone id) (count_items retained == count_items (devices_of config))
          not_found (check final in_use >> save) d
          λ found. check-ensures (IsGone id) final in_use save d λ others.
            continue-ensures (IsGone id) r (λ u. status p w) d1
              λ u saved told.
                let (now, (c, e)) = (save_config-atomic p w document d).0 saved in
                rw (status-store d1)
                  (saved-IsGone id config d1 (load_config_of_checked document c d1 now e))

  -- After `remove_device` has returned, a second removal of the same device finds none, confirmed or
  -- not before: it raises "enrolled device was not found".
  pub remove_device-gone :
      (id : String) (confirmed : Bool) (d : Directory) (v : Value)
      → (remove_device p w id confirmed d).0 ≡ ok v
      → (remove_device p w id true (remove_device p w id confirmed d).1).0 ≡ err not_found
  unfolding remove_device
  remove_device-gone id confirmed d v h =
      check-ensures (IsGone id) (not confirmed)
        (configuration "device removal requires confirmation") (remove_confirmed p w id) d
        (λ yes done. removed-IsGone id d done) h
