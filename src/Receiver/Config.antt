-- ===== src/Receiver/Config.antt =====
-- relay_receiver.py: `RelayReceiverConfig.load`. The files are parameters.
use printer_hmi_remote.Prelude.{
  String, Bool, not, ◌&&◌, ◌||◌, Option, some, List, [], ◌∷◌, ◌==◌, str_eq, ltb, length, Error,
  ◌<>◌, ◌≡◌, ◌+◌, ℕ, true, false, ◌∙◌, Result-cases, subst, sym, arith, >>=-eq-ok, eq_iff,
  Bool-cases, inl, inr, receiver, other, Result, ok, need, raise_if, ◌>>=◌, ◌>>◌,
}
use printer_hmi_remote.Prelude.Int.{ℤ, pos}
use printer_hmi_remote.Json.{
  Value, obj, arr, str, Items, nil, cons, get, as_dict, as_str, as_bool, as_int, as_list, as_number,
  same_keys, is_one,
}
use printer_hmi_remote.Dict
use printer_hmi_remote.Dict.{Dict, lookup-insert}
use printer_hmi_remote.Codec.Pattern.{matches_relay_id, matches_device_id, matches_public_key}
use printer_hmi_remote.Platform.{Platform}
use printer_hmi_remote.Codec.Base64.{Bytes}
use printer_hmi_remote.Enrollment.Keys.{b64decode, device_id}
use printer_hmi_remote.Transport.Config.{within, overflows}

-- `devices` maps an enrolled identifier to its public key; `stale_after` is in millionths of a second.
pub record ReceiverConfig : Type 0 where
  pub enabled : Bool
  pub relay_id : String
  pub listen_host : String
  pub listen_port : ℤ
  pub api_socket : String
  pub state_file : String
  pub cert_file : String
  pub key_file : String
  pub stale_after : ℤ
  pub devices : Dict String

abbrev pub receiver_fields : List String
receiver_fields =
    "schema_version" ∷ "enabled" ∷ "relay_id" ∷ "listen_host" ∷ "listen_port" ∷ "api_socket"
    ∷ "state_file" ∷ "cert_file" ∷ "key_file" ∷ "stale_after" ∷ "devices" ∷ []

abbrev device_fields : List String
device_fields = "device_id" ∷ "public_key" ∷ []

abbrev bad_key : Error
bad_key = receiver "invalid enrolled device public key"

-- `isinstance(raw_devices, list)`, and whether it has more than 10000 items.
unfoldable pub count_items : Items → ℕ
count_items nil = 0
count_items (cons x xs) = count_items xs + 1

abbrev is_empty : Items → Bool
is_empty nil = true
is_empty (cons x xs) = false

-- What the loader reads of the world: `ipaddress.ip_address(host).is_loopback`, `none` for its
-- `ValueError`; the absolute path of a configured one; whether a file is there.
pub record Files : Type 0 where
  pub is_loopback : String → Option Bool
  pub resolve : String → String
  pub is_file : String → Bool

module _ (p : Platform) where
  -- One entry of the devices, with those before it.
  unfoldable pub read_device : Value → Dict String → Result (String × String)
  read_device item devices = do
    fs ← need (as_dict item) (receiver "invalid receiver device entry")
    raise_if (not (same_keys fs device_fields)) (receiver "invalid receiver device entry")
    id ← need (as_str (get "device_id" fs)) (receiver "invalid enrolled device identifier")
    raise_if (not (matches_device_id id)) (receiver "invalid enrolled device identifier")
    public_key ← need (as_str (get "public_key" fs)) bad_key
    raise_if (not (matches_public_key public_key)) bad_key
    decoded ← b64decode bad_key (str public_key)
    raise_if
        (not (length decoded == 32)
          || not (str_eq id (device_id p decoded))
          || Dict.contains id devices)
        (receiver "invalid or duplicate enrolled device")
    ok (id, public_key)

  unfoldable pub read_devices : Items → Dict String → Result (Dict String)
  read_devices nil devices = ok devices
  read_devices (cons item items) devices = do
    (id, public_key) ← read_device item devices
    read_devices items (Dict.insert id public_key devices)

  -- `_path`
  unfoldable pub read_path : Files → Value → String → Bool → Result String
  read_path files v label must_exist = do
    path ← need (as_str v) (receiver ("invalid " <> (label <> " path")))
    raise_if (str_eq path "") (receiver ("invalid " <> (label <> " path")))
    raise_if (must_exist && not (files.is_file (files.resolve path)))
        (receiver (label <> " file was not found"))
    ok (files.resolve path)

  unfoldable pub load : Option Value → Files → Result ReceiverConfig
  load read files = do
    document ← need read (receiver "receiver configuration could not be read")
    fs ← need (as_dict document) (receiver "invalid receiver configuration")
    raise_if (not (same_keys fs receiver_fields)) (receiver "invalid receiver configuration")
    raise_if (not (is_one (get "schema_version" fs)))
        (receiver "unsupported receiver configuration version")
    enabled ← need (as_bool (get "enabled" fs)) (receiver "invalid receiver enabled flag")
    relay_id ← need (as_str (get "relay_id" fs)) (receiver "invalid relay identifier")
    raise_if (not (matches_relay_id relay_id)) (receiver "invalid relay identifier")
    host ← need (as_str (get "listen_host" fs)) (receiver "invalid receiver host")
    loopback ← need (files.is_loopback host) (receiver "receiver host must be a loopback IP")
    raise_if (not loopback) (receiver "receiver foundation is restricted to loopback")
    port ← need (as_int (get "listen_port" fs)) (receiver "invalid receiver port")
    raise_if (not (within (pos 1) (pos 65535) port)) (receiver "invalid receiver port")
    stale_after ←
        need (as_number (get "stale_after" fs)) (receiver "invalid receiver stale interval")
    raise_if (overflows (get "stale_after" fs)) (other "OverflowError")
    raise_if (not (within (pos 5000000) (pos 3600000000) stale_after))
        (receiver "invalid receiver stale interval")
    raw_devices ← need (as_list (get "devices" fs)) (receiver "receiver requires enrolled devices")
    raise_if (ltb 10000 (count_items raw_devices)) (receiver "receiver requires enrolled devices")
    raise_if (enabled && is_empty raw_devices)
        (receiver "enabled receiver requires enrolled devices")
    devices ← read_devices raw_devices []
    api_socket ← read_path files (get "api_socket" fs) "API socket" false
    state_file ← read_path files (get "state_file" fs) "state file" false
    cert_file ← read_path files (get "cert_file" fs) "certificate" true
    key_file ← read_path files (get "key_file" fs) "private key" true
    ok (record {
      enabled = enabled;
      relay_id = relay_id;
      listen_host = host;
      listen_port = port;
      api_socket = api_socket;
      state_file = state_file;
      cert_file = cert_file;
      key_file = key_file;
      stale_after = stale_after;
      devices = devices;
    })

-- Every device is enrolled under the identifier that its own key has.
abbrev pub IsBound : Platform → Dict String → Type 0
IsBound p devices =
    (id public_key : String)
    → Dict.lookup id devices ≡ some public_key
    → (k : Bytes) × (b64decode bad_key (str public_key) ≡ ok k)
      × (length k ≡ 32)
      × (id ≡ device_id p k)

module _ (p : Platform) where
  read_device_derived :
      (item : Value) (devices : Dict String) (id key : String)
      → read_device p item devices ≡ ok (id, key)
      → (k : Bytes) × (b64decode bad_key (str key) ≡ ok k) × (length k ≡ 32) × (id ≡ device_id p k)
  unfolding read_device
  read_device_derived item devices id key h = elim (Result-cases (b64decode bad_key (str key))) [
    | inl (k, decodes) ↦ (k, decodes, ground arith, ground (arith, eq_iff id (device_id p k)))
    | inr (e, fails) ↦ absurd (ground arith)
  ]

  insert-IsBound :
      (new new_key : String) (devices : Dict String)
      → IsBound p devices
      → (k : Bytes) × (b64decode bad_key (str new_key) ≡ ok k)
        × (length k ≡ 32)
        × (new ≡ device_id p k)
      → IsBound p (Dict.insert new new_key devices)
  insert-IsBound new new_key devices b (k, decodes, fits, derived) id key found =
      elim (Bool-cases (str_eq new id)) [
        | inl same ↦
            let e : new_key ≡ key = ground (arith, lookup-insert new id new_key devices) in
            (
              k,
              subst (λ x. b64decode bad_key (str x) ≡ ok k) e decodes,
              fits,
              sym ((eq_iff new id).0 same) ∙ derived,
            )
        | inr differs ↦ b id key (ground (arith, lookup-insert new id new_key devices))
      ]

  read_devices-IsBound :
      (items : Items) (devices r : Dict String)
      → IsBound p devices
      → read_devices p items devices ≡ ok r
      → IsBound p r
  unfolding read_devices
  read_devices-IsBound nil devices r b h = subst (IsBound p) (let e : devices ≡ r = cc h in e) b
  read_devices-IsBound (cons item items) devices r b h =
      let (entry, ee, h1) =
        >>=-eq-ok (read_device p item devices)
          (λ e. read_devices p items (Dict.insert e.0 e.1 devices)) h in
      read_devices-IsBound items (Dict.insert entry.0 entry.1 devices) r
        (insert-IsBound entry.0 entry.1 devices b
          (read_device_derived item devices entry.0 entry.1 ee))
        h1

  abbrev listed : Option Value → Items
  listed (some (obj fs)) = elim (get "devices" fs) [ arr items ↦ items | _ ↦ nil ]
  listed _ = nil

  load-read_devices :
      (read : Option Value) (files : Files) (c : ReceiverConfig)
      → load p read files ≡ ok c
      → read_devices p (listed read) [] ≡ ok c.devices
  unfolding load
  load-read_devices read files c h = ground arith

  -- Of a configuration that loads, every device is enrolled under the identifier that is derived from
  -- its own key of 32 bytes.
  pub load-IsBound :
      (read : Option Value) (files : Files) (c : ReceiverConfig)
      → load p read files ≡ ok c
      → IsBound p c.devices
  unfolding Dict.lookup
  load-IsBound read files c h =
      read_devices-IsBound (listed read) [] c.devices (λ id key found. cc)
        (load-read_devices read files c h)
