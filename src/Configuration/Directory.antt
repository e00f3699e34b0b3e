-- ===== src/Configuration/Directory.antt =====
-- relay_configuration.py: the directory of `RelayConfigurationManager`. Its two JSON files are documents.
-- A write may find the disk full. A file that is not UTF-8 is left out.
use printer_hmi_remote.Prelude.{
  ℕ, ◌-◌, String, Bool, true, not, ◌||◌, Option, some, ◌==◌, ◌<>◌, configuration, Result, ok, err,
  need, ◌>>=◌, if◌then◌else◌,
}
use printer_hmi_remote.Action.{Action}
use printer_hmi_remote.Json.{Value, obj, Fields, as_dict}
use printer_hmi_remote.Dict
use printer_hmi_remote.Dict.{Dict}
use printer_hmi_remote.Codec.Base64.{Bytes}
use printer_hmi_remote.Receiver.Config.{Files}
use printer_hmi_remote.Transport.Link.{os_error}

-- `state` and `config` are relay-enrollment.json and relay-receiver.json, `pems` the certificates and
-- keys under their absolute paths, `others` says whether there is anything else but the lock. `outputs`
-- are the request files that were written elsewhere. The writes that are left go well.
pub record Directory : Type 0 where
  pub state : Option Value
  pub config : Option Value
  pub pems : Dict Bytes
  pub others : Bool
  pub outputs : Dict Value
  pub writes_left : ℕ

-- What the manager reads of the world outside: `self.directory / name`, an output resolved, the
-- parent of a path, what is a directory, and what else there is.
pub record World : Type 0 where
  pub files : Files
  pub path : String → String
  pub locate : String → String
  pub parent : String → String
  pub is_dir : String → Bool
  pub exists : String → Bool

-- A certificate that the manager wrote is a file.
abbrev files_with : World → Dict Bytes → Files
files_with w pems = record (w.files) {
  is_file = λ path. Dict.contains path pems || w.files.is_file path;
}

abbrev pub files_of : World → Directory → Files
files_of w d = files_with w d.pems

-- A write that fails leaves its temporary file in the directory.
abbrev littered : Directory → Directory
littered d = record d { others = true }

-- One file of the directory is written, or the disk is full.
unfoldable pub write : (Directory → Directory) → Action Directory Unit
write put d =
    if d.writes_left == 0
    then (err os_error, littered d)
    else (ok tt, put (record d { writes_left = d.writes_left - 1 }))

-- `_write_private_json` of an output, which is not written over and whose parent is not made.
unfoldable pub write_output : World → String → Value → Action Directory Unit
write_output w path document d =
    if not (w.is_dir (w.parent path))
    then (err (configuration ("output parent directory was not found: " <> w.parent path)), d)
    else if Dict.contains path d.outputs || w.exists path
    then (err (configuration ("refusing to overwrite " <> path)), d)
    else if d.writes_left == 0
    then (err os_error, d)
    else (
      ok tt,
      record d { outputs = Dict.insert path document d.outputs; writes_left = d.writes_left - 1 },
    )

abbrev pub set_state : Fields → Directory → Directory
set_state fs d = record d { state = some (obj fs) }

abbrev pub set_config : Fields → Directory → Directory
set_config fs d = record d { config = some (obj fs) }

-- `_read_json`
unfoldable pub read_json : Option Value → String → Result Fields
read_json read label = do
  document ← need read (configuration (label <> " could not be read"))
  need (as_dict document) (configuration ("invalid " <> label))
