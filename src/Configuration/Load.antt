-- ===== src/Configuration/Load.antt =====
-- relay_configuration.py: `_load_state` and `_load_config`.
use printer_hmi_remote.Prelude.{
  String, not, ◌||◌, Option, List, [], ◌∷◌, ◌==◌, length, Error, configuration, receiver, Result,
  ok, err, need, raise_if, ◌>>=◌, ◌>>◌,
}
use printer_hmi_remote.Json.{Value, Fields, get, as_dict, as_str, same_keys, is_one}
use printer_hmi_remote.Codec.Pattern.{matches_relay_id}
use printer_hmi_remote.Platform.{Platform}
use printer_hmi_remote.Enrollment.Keys.{b64decode, bytes_eq}
use printer_hmi_remote.Receiver.Config
use printer_hmi_remote.Receiver.Config.{ReceiverConfig, Files}
use printer_hmi_remote.Json.{is_text}
use printer_hmi_remote.Configuration.Directory.{read_json}

abbrev pub state_fields : List String
state_fields =
    "schema_version" ∷ "relay_id" ∷ "peer_id" ∷ "peer_public_key" ∷ "peer_private_key"
    ∷ "created_at" ∷ "pending_challenges" ∷ []

abbrev pub bad_key : Error
bad_key = configuration "invalid encoded key"

abbrev bad_state : Error
bad_state = configuration "invalid relay enrollment state"

-- `except RelayReceiverError as exc: raise RelayConfigurationError(str(exc))`
abbrev pub as_configuration : {A : Type 0} → Result A → Result A
as_configuration (ok a) = ok a
as_configuration (err (receiver message)) = err (configuration message)
as_configuration (err e) = err e

-- The text of a field that was found to be one.
abbrev pub text_of : Value → String
text_of v = elim (as_str v) [ Option.none ↦ "" | Option.some s ↦ s ]

module _ (p : Platform) where
  -- The keys of the stored peer belong together.
  unfoldable pub check_identity : Fields → Result (Unit {0})
  check_identity fs = do
    private_bytes ← b64decode bad_key (get "peer_private_key" fs)
    public_bytes ← b64decode bad_key (get "peer_public_key" fs)
    raise_if (not (length private_bytes == 32) || not (length public_bytes == 32))
        (configuration "invalid relay enrollment identity")
    raise_if (not (bytes_eq (p.public_key private_bytes) public_bytes))
        (configuration "relay enrollment identity does not match")

  -- `_load_state`, of what the state file reads as.
  unfoldable pub load_state : Option Value → Result Fields
  load_state read = do
    fs ← read_json read "relay enrollment state"
    raise_if (not (same_keys fs state_fields) || not (is_one (get "schema_version" fs))) bad_state
    relay_id ← need (as_str (get "relay_id" fs)) bad_state
    raise_if (not (matches_relay_id relay_id)) bad_state
    peer_id ← need (as_str (get "peer_id" fs)) bad_state
    raise_if (not (matches_relay_id peer_id)) bad_state
    need (as_dict (get "pending_challenges" fs)) bad_state
    check_identity fs
    ok fs

  -- `RelayReceiverConfig.load`, with its errors as the manager's.
  unfoldable pub parse_config : Option Value → Files → Result ReceiverConfig
  parse_config read files = as_configuration (Config.load p read files)

  -- The receiver's configuration loads, and has the relay identifier of the state.
  unfoldable pub check_config : Option Value → Option Value → Files → Result ReceiverConfig
  check_config config state files = do
    parsed ← parse_config config files
    loaded ← load_state state
    raise_if (not (is_text parsed.relay_id (get "relay_id" loaded)))
        (configuration "receiver and enrollment relay identifiers do not match")
    ok parsed

  -- `_load_config`
  unfoldable pub load_config : Option Value → Option Value → Files → Result Fields
  load_config config state files = do
    fs ← read_json config "relay receiver configuration"
    check_config config state files
    ok fs
