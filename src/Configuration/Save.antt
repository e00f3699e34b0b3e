-- ===== src/Configuration/Save.antt =====
-- relay_configuration.py: `_save_config`, which replaces the configuration by a candidate that was checked.
use printer_hmi_remote.Prelude.{
  ◌≡◌, ◌-◌, some, arith, Error, ok, err, Result, Result-cases, inl, inr,
}
use printer_hmi_remote.Action.{Action, lift, gets, modify, ◌>>=◌, ◌>>◌}
use printer_hmi_remote.Json.{obj, Fields}
use printer_hmi_remote.Platform.{Platform}
use printer_hmi_remote.Receiver.Config.{ReceiverConfig}
use printer_hmi_remote.Configuration.Directory.{Directory, World, files_of, write, set_config}
use printer_hmi_remote.Configuration.Load.{check_config}

module _ (p : Platform) (w : World) where
  -- What `check_config` makes of a directory.
  abbrev pub checked : Directory → Result ReceiverConfig
  checked d = check_config p d.config d.state (files_of w d)

  -- The candidate is written beside the configuration, checked, and moved over it.
  unfoldable pub save_config : Fields → Action Directory Unit
  save_config document =
      write (λ d. d)
      >> (gets (λ (d : Directory). checked (set_config document d)) >>= λ parsed.
          lift parsed >> modify (set_config document))

  -- The directory as it will be.
  abbrev candidate : Fields → Directory → Directory
  candidate document d = set_config document (record d { writes_left = d.writes_left - 1 })

  -- Where saving a configuration returns, the configuration is the document and passes the checks.
  -- Where it raises, the configuration, the state and the certificates are as they were.
  pub save_config-atomic :
      (document : Fields) (d : Directory)
      → let (r, d') = save_config document d in
        (r ≡ ok tt
          → (d'.config ≡ some (obj document)) × ((c : ReceiverConfig) × (checked d' ≡ ok c)))
        × ((e : Error) → r ≡ err e → d'.config ≡ d.config)
        × (d'.state ≡ d.state)
        × (d'.pems ≡ d.pems)
  unfolding save_config write
  save_config-atomic document d = elim (Result-cases (checked (candidate document d))) [
    | inl (c, e) ↦ (
      λ h. (ground arith, (c, ground arith)),
      λ error h. ground arith,
      ground arith,
      ground arith,
    )
    | inr (e, f) ↦ (λ h. absurd (ground arith), λ error h. ground arith, ground arith, ground arith)
  ]
