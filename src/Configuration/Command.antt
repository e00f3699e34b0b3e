-- ===== src/Configuration/Command.antt =====
-- relay_configuration.py: `main`, one command after another on a directory.
use printer_hmi_remote.Prelude.{
  ℕ, String, Bool, true, false, Option, none, some, List, [], ◌∷◌, Error, configuration, enrollment,
  value, other, Result, ok, err, str_eq, if◌then◌else◌,
}
use printer_hmi_remote.Action.{Action, raise}
use printer_hmi_remote.Json.{Value}
use printer_hmi_remote.Platform.{Platform}
use printer_hmi_remote.Configuration.Directory.{Directory, World}
use printer_hmi_remote.Configuration.Manage.{
  status, create_enrollment_request, add_receipt, set_enabled, remove_device,
}
use printer_hmi_remote.Configuration.Request.{Fresh}
use printer_hmi_remote.Configuration.Initialize.{Generated, initialize}

-- The arguments of the command line. A file is what it reads as.
pub data Command : Type 0 where
  init : Generated → Option Value → Value → Value → Command
  request : Fresh → Option (Option Value) → Option String → Command
  receipt : Option (Option Value) → Command
  enable : Bool → Command
  disable : Command
  remove : Option String → Bool → Command
  show : Command

-- What argparse raises: `SystemExit` with the status 2.
abbrev pub usage : Error
usage = other "SystemExit"

module _ (p : Platform) (w : World) where
  unfoldable pub step : Command → Action Directory Value
  step (init made relay peer port) = elim relay [
    | none ↦ raise usage
    | some id ↦ initialize p w made id peer port
  ]
  step (request fresh offer output) = elim offer [
    | none ↦ raise usage
    | some file ↦ elim output [
      | none ↦ raise usage
      | some path ↦ create_enrollment_request p w fresh file path
    ]
  ]
  step (receipt read) = elim read [ none ↦ raise usage | some file ↦ add_receipt p w file ]
  step (enable confirmed) = set_enabled p w true confirmed
  step disable = set_enabled p w false false
  step (remove device confirmed) = elim device [
    | none ↦ raise usage
    | some id ↦ remove_device p w id confirmed
  ]
  step show = status p w

  -- Commands in a row, each whatever the one before it came to.
  unfoldable pub run : List Command → Directory → Directory
  unfolding step
  run [] d = d
  run (command ∷ commands) d = run commands (step command d).1

-- Whether `main` catches the exception: `OSError`, `ValueError` and the manager's own errors.
unfoldable pub is_caught : Error → Bool
is_caught (configuration message) = true
is_caught (enrollment message) = true
is_caught (value message) = true
is_caught (other name) = str_eq name "OSError"
is_caught _ = false

-- The exit status, where `main` returns one.
unfoldable pub exit_code : Result Value → Option ℕ
unfolding is_caught
exit_code (ok v) = some 0
exit_code (err e) = if is_caught e then some 1 else none
