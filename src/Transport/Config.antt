-- ===== src/Transport/Config.antt =====
-- relay_transport.py: `RelayConfig.load`. The files are a parameter: what the configuration file reads
-- as, and what a path in it resolves to.
use printer_hmi_remote.Prelude.{
  String, Bool, not, ◌&&◌, Option, List, [], ◌∷◌, str_eq, leb, str_len, ◌≡◌, ◌+◌, ◌-◌, ◌^◌, true,
  false, arith, transport, other, Result, ok, need, raise_if, ◌>>=◌, ◌>>◌,
}
use printer_hmi_remote.Prelude.Int.{ℤ, pos, negsuc, leb_ℤ}
use printer_hmi_remote.Json.{
  Value, int, get, as_dict, as_str, as_bool, as_int, as_number, same_keys, is_one,
}
use printer_hmi_remote.Codec.Pattern.{matches_relay_id}

-- `ca_file` is the resolved path; `connect_timeout` is in millionths of a second.
pub record RelayConfig : Type 0 where
  pub enabled : Bool
  pub relay_id : String
  pub host : String
  pub port : ℤ
  pub server_name : String
  pub ca_file : String
  pub queue_capacity : ℤ
  pub connect_timeout : ℤ

abbrev pub config_fields : List String
config_fields =
    "schema_version" ∷ "enabled" ∷ "relay_id" ∷ "host" ∷ "port" ∷ "server_name" ∷ "ca_file"
    ∷ "queue_capacity" ∷ "connect_timeout" ∷ []

unfoldable pub within : ℤ → ℤ → ℤ → Bool
within lo hi n = leb_ℤ lo n && leb_ℤ n hi

unfoldable pub is_host : String → Bool
is_host s = not (str_eq s "") && leb (str_len s) 253

-- `float(v)` of an integer raises `OverflowError` where it rounds to no float: from halfway between the
-- greatest float and the power of two after it.
unfoldable pub overflows : Value → Bool
overflows (int (pos n)) = leb (2 ^ 1024 - 2 ^ 970) n
overflows (int (negsuc n)) = leb (2 ^ 1024 - 2 ^ 970) (n + 1)
overflows _ = false

-- `read` is the parsed file, `none` where it cannot be read; `resolve_file` is the absolute path of an
-- existing file, `none` where there is none.
unfoldable pub load : Option Value → (String → Option String) → Result RelayConfig
load read resolve_file = do
  document ← need read (transport "relay configuration could not be read")
  fs ← need (as_dict document) (transport "invalid relay configuration")
  raise_if (not (same_keys fs config_fields)) (transport "invalid relay configuration")
  raise_if (not (is_one (get "schema_version" fs)))
      (transport "unsupported relay configuration version")
  enabled ← need (as_bool (get "enabled" fs)) (transport "invalid relay enabled flag")
  relay_id ← need (as_str (get "relay_id" fs)) (transport "invalid relay identifier")
  raise_if (not (matches_relay_id relay_id)) (transport "invalid relay identifier")
  host ← need (as_str (get "host" fs)) (transport "invalid relay host")
  raise_if (not (is_host host)) (transport "invalid relay host")
  port ← need (as_int (get "port" fs)) (transport "invalid relay port")
  raise_if (not (within (pos 1) (pos 65535) port)) (transport "invalid relay port")
  server_name ← need (as_str (get "server_name" fs)) (transport "invalid relay server name")
  raise_if (not (is_host server_name)) (transport "invalid relay server name")
  queue_capacity ←
      need (as_int (get "queue_capacity" fs)) (transport "invalid relay queue capacity")
  raise_if (not (within (pos 1) (pos 64) queue_capacity)) (transport "invalid relay queue capacity")
  timeout ←
      need (as_number (get "connect_timeout" fs)) (transport "invalid relay connection timeout")
  raise_if (overflows (get "connect_timeout" fs)) (other "OverflowError")
  raise_if (not (within (pos 500000) (pos 30000000) timeout))
      (transport "invalid relay connection timeout")
  ca_value ← need (as_str (get "ca_file" fs)) (transport "invalid relay CA path")
  raise_if (str_eq ca_value "") (transport "invalid relay CA path")
  ca_file ← need (resolve_file ca_value) (transport "relay CA file was not found")
  ok (record {
    enabled = enabled;
    relay_id = relay_id;
    host = host;
    port = port;
    server_name = server_name;
    ca_file = ca_file;
    queue_capacity = queue_capacity;
    connect_timeout = timeout;
  })

-- What `load` promises of every configuration.
pub record IsValid (c : RelayConfig) : Type 0 where
  pub relay_id_matches : matches_relay_id c.relay_id ≡ true
  pub host_fits : is_host c.host ≡ true
  pub server_name_fits : is_host c.server_name ≡ true
  pub port_range : within (pos 1) (pos 65535) c.port ≡ true
  pub capacity_range : within (pos 1) (pos 64) c.queue_capacity ≡ true
  pub timeout_range : within (pos 500000) (pos 30000000) c.connect_timeout ≡ true

module _ (read : Option Value) (resolve_file : String → Option String) (c : RelayConfig)
    (h : load read resolve_file ≡ ok c) where
  load_relay_id_matches : matches_relay_id c.relay_id ≡ true
  unfolding load
  load_relay_id_matches = ground arith

  load_host_fits : is_host c.host ≡ true
  unfolding load
  load_host_fits = ground arith

  load_server_name_fits : is_host c.server_name ≡ true
  unfolding load
  load_server_name_fits = ground arith

  load_port_range : within (pos 1) (pos 65535) c.port ≡ true
  unfolding load
  load_port_range = ground arith

  load_capacity_range : within (pos 1) (pos 64) c.queue_capacity ≡ true
  unfolding load
  load_capacity_range = ground arith

  load_timeout_range : within (pos 500000) (pos 30000000) c.connect_timeout ≡ true
  unfolding load
  load_timeout_range = ground arith

  -- Whatever the file holds, a configuration that loads is in range in its identifier, its two host
  -- names, its port, its queue capacity and its timeout.
  pub load-IsValid : IsValid c
  load-IsValid = record {
    relay_id_matches = load_relay_id_matches;
    host_fits = load_host_fits;
    server_name_fits = load_server_name_fits;
    port_range = load_port_range;
    capacity_range = load_capacity_range;
    timeout_range = load_timeout_range;
  }
