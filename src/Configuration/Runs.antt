-- ===== src/Configuration/Runs.antt =====
-- The directory stays usable: the configuration and the state load and agree after every command.
use printer_hmi_remote.Prelude.{
  ◌≡◌, true, false, not, ◌&&◌, ◌==◌, Bool, String, none, some, List, [], ◌∷◌, arith, configuration,
}
use printer_hmi_remote.Action.{continue-keeps, check-keeps, check, ◌>>◌}
use printer_hmi_remote.Json.{Value, bool, arr, get, insert, truthy}
use printer_hmi_remote.Platform.{Platform}
use printer_hmi_remote.Receiver.Config.{load, count_items}
use printer_hmi_remote.Configuration.Directory.{Directory, World, files_of}
use printer_hmi_remote.Configuration.Load.{check_config, load_config, parse_config}
use printer_hmi_remote.Configuration.Save.{save_config}
use printer_hmi_remote.Configuration.Manage.{
  status, set_enabled, remove_device, devices_of, set_confirmed, remove_confirmed, without_device,
}
use printer_hmi_remote.Configuration.Initialize.{
  Generated, initialize, initialize_locked, read_identifiers, is_blank,
}
use printer_hmi_remote.Configuration.Command.{
  Command, init, request, receipt, enable, disable, remove, show, step, run,
}
use printer_hmi_remote.Configuration.Invariant.{
  IsConsistent, save_and_status-IsConsistent, status-IsConsistent, add_receipt-IsConsistent,
  create_enrollment_request-IsConsistent,
}

module _ (p : Platform) (w : World) where
  not_blank : (d : Directory) → IsConsistent p w d → is_blank d ≡ false
  unfolding check_config is_blank load parse_config
  not_blank d (c, e) = ground arith

  set_confirmed-IsConsistent :
      (enabled : Bool) (d : Directory)
      → IsConsistent p w d
      → IsConsistent p w (set_confirmed p w enabled d).1
  unfolding set_confirmed
  set_confirmed-IsConsistent enabled d h =
      continue-keeps (IsConsistent p w) (load_config p d.config d.state (files_of w d)) _ d h
        λ config _.
          check-keeps (IsConsistent p w) (enabled && not (truthy (get "devices" config)))
            (configuration "cannot enable without enrolled devices")
            (save_config p w (insert "enabled" (bool enabled) config) >> status p w) d h
            λ passes. save_and_status-IsConsistent p w (insert "enabled" (bool enabled) config) d h

  remove_confirmed-IsConsistent :
      (id : String) (d : Directory)
      → IsConsistent p w d
      → IsConsistent p w (remove_confirmed p w id d).1
  unfolding remove_confirmed
  remove_confirmed-IsConsistent id d h =
      continue-keeps (IsConsistent p w) (load_config p d.config d.state (files_of w d)) _ d h
        λ config _.
          let retained = without_device id (devices_of config) in
          let save = save_config p w (insert "devices" (arr retained) config) >> status p w in
          let final = truthy (get "enabled" config) && not (truthy (arr retained)) in
          let in_use = configuration "disable the receiver before removing its final device" in
          check-keeps (IsConsistent p w) (count_items retained == count_items (devices_of config))
            (configuration "enrolled device was not found") (check final in_use >> save) d h
            λ found. check-keeps (IsConsistent p w) final in_use save d h λ passes.
              save_and_status-IsConsistent p w (insert "devices" (arr retained) config) d h

  -- A directory with a configuration is not initialized again.
  initialize-IsConsistent :
      (made : Generated) (relay peer port : Value) (d : Directory)
      → IsConsistent p w d
      → IsConsistent p w (initialize p w made relay peer port d).1
  unfolding initialize
  initialize-IsConsistent made relay peer port d h =
      continue-keeps (IsConsistent p w) (read_identifiers relay peer port) _ d h λ ids _.
        check-keeps (IsConsistent p w) (not (is_blank d))
          (configuration "refusing to initialize a non-empty directory")
          (initialize_locked p w made ids.0 ids.1 ids.2) d h
          λ blank. absurd (ground (arith, not_blank d h))

  step-IsConsistent :
      (command : Command) (d : Directory)
      → IsConsistent p w d
      → IsConsistent p w (step p w command d).1
  unfolding step set_enabled remove_device
  step-IsConsistent (init made (some relay) peer port) d h =
      initialize-IsConsistent made relay peer port d h
  step-IsConsistent (init made none peer port) d h = h
  step-IsConsistent (request fresh (some offer) (some output)) d h =
      create_enrollment_request-IsConsistent p w fresh offer output d h
  step-IsConsistent (request fresh none output) d h = h
  step-IsConsistent (request fresh (some offer) none) d h = h
  step-IsConsistent (receipt (some read)) d h = add_receipt-IsConsistent p w read d h
  step-IsConsistent (receipt none) d h = h
  step-IsConsistent (enable confirmed) d h =
      check-keeps (IsConsistent p w) (true && not confirmed)
        (configuration "enabling requires explicit confirmation") (set_confirmed p w true) d h
        λ passes. set_confirmed-IsConsistent true d h
  step-IsConsistent disable d h = set_confirmed-IsConsistent false d h
  step-IsConsistent (remove (some id) confirmed) d h =
      check-keeps (IsConsistent p w) (not confirmed)
        (configuration "device removal requires confirmation") (remove_confirmed p w id) d h
        λ passes. remove_confirmed-IsConsistent id d h
  step-IsConsistent (remove none confirmed) d h = h
  step-IsConsistent show d h = status-IsConsistent p w d h

  -- Of a directory whose configuration and state load with one relay identifier, they still do after
  -- any commands in a row, whether these return or raise, the disk being full included.
  pub run-IsConsistent :
      (commands : List Command) (d : Directory)
      → IsConsistent p w d
      → IsConsistent p w (run p w commands d)
  unfolding run
  run-IsConsistent [] d h = h
  run-IsConsistent (command ∷ commands) d h =
      run-IsConsistent commands (step p w command d).1 (step-IsConsistent command d h)
