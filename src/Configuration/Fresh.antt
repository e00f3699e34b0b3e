-- ===== src/Configuration/Fresh.antt =====
-- relay_configuration.py: `initialize` of an empty directory returns.
use printer_hmi_remote.Prelude.{
  ◌≤◌, ◌-◌, eq_refl, String, ◌≡◌, refl, true, false, some, [], length, arith, ok,
}
use printer_hmi_remote.Prelude.Int.{ℤ, pos}
use printer_hmi_remote.Json.{Fields, int, str, obj, get, lookup, same_keys, member, keys}
use printer_hmi_remote.Dict
use printer_hmi_remote.Dict.{Dict}
use printer_hmi_remote.Codec.Base64.{IsBytes}
use printer_hmi_remote.Codec.Base64.RoundTrip.{decode-encode}
use printer_hmi_remote.Codec.Pattern.{matches_relay_id}
use printer_hmi_remote.Platform.{Platform, IsSound}
use printer_hmi_remote.Enrollment.Keys.{b64decode}
use printer_hmi_remote.Enrollment.Redeem.{bytes_eq_refl}
use printer_hmi_remote.Transport.Config.{within, overflows}
use printer_hmi_remote.Receiver.Config.{
  Files, ReceiverConfig, load, read_path, read_devices, count_items,
}
use printer_hmi_remote.Configuration.Directory.{
  Directory, World, files_of, read_json, write, set_state, set_config,
}
use printer_hmi_remote.Configuration.Load.{
  load_state, check_identity, load_config, check_config, parse_config,
}
use printer_hmi_remote.Configuration.Manage.{status, status_document}
use printer_hmi_remote.Configuration.Initialize.{
  put_pem, Generated, initial_state, initial_config, initialize_locked, initialize,
  read_identifiers, is_blank,
}

module _ (p : Platform) where
  -- A drawn private key of 32 bytes makes a state that loads.
  initial_state-check_identity :
      (sound : IsSound p) (made : Generated) (relay_id peer_id : String)
      → IsBytes made.peer_private
      → length made.peer_private ≡ 32
      → check_identity p (initial_state p made relay_id peer_id) ≡ ok tt
  unfolding check_identity b64decode lookup
  initial_state-check_identity sound made relay_id peer_id bytes fits =
      let public = p.public_key made.peer_private in
      rw
        (
          decode-encode made.peer_private bytes,
          decode-encode public (sound.public_key-IsBytes made.peer_private),
          fits,
          sound.length-public_key made.peer_private,
          bytes_eq_refl public,
        )
        refl

  initial_state-loads :
      (sound : IsSound p) (made : Generated) (relay_id peer_id : String)
      → IsBytes made.peer_private
      → length made.peer_private ≡ 32
      → matches_relay_id relay_id ≡ true
      → matches_relay_id peer_id ≡ true
      → load_state p (some (obj (initial_state p made relay_id peer_id)))
        ≡ ok (initial_state p made relay_id peer_id)
  unfolding load_state read_json lookup same_keys keys member
  initial_state-loads sound made relay_id peer_id bytes fits m n =
      rw (m, n, initial_state-check_identity sound made relay_id peer_id bytes fits) refl

  -- The first configuration, with its certificate and key in place.
  initial_config-loads :
      (files : Files) (relay_id : String) (port : ℤ)
      → matches_relay_id relay_id ≡ true
      → within (pos 1) (pos 65535) port ≡ true
      → files.is_loopback "127.0.0.1" ≡ some true
      → files.is_file (files.resolve "relay-cert.pem") ≡ true
      → files.is_file (files.resolve "relay-key.pem") ≡ true
      → (c : ReceiverConfig) × (load p (some (obj (initial_config relay_id port))) files ≡ ok c)
        × (c.relay_id ≡ relay_id)
  unfolding load lookup same_keys keys member read_path read_devices count_items within overflows
  initial_config-loads files relay_id port m n loop cert key = (
    record {
      enabled = false;
      relay_id = relay_id;
      listen_host = "127.0.0.1";
      listen_port = port;
      api_socket = files.resolve "runtime/receiver.sock";
      state_file = files.resolve "runtime/latest.json";
      cert_file = files.resolve "relay-cert.pem";
      key_file = files.resolve "relay-key.pem";
      stale_after = pos 30000000;
      devices = [];
    },
    rw (m, loop, n, cert, key) refl,
    refl,
  )

write_ok :
    (put : Directory → Directory) (d : Directory)
    → 1 ≤ d.writes_left
    → write put d ≡ (ok tt, put (record d { writes_left = d.writes_left - 1 }))
unfolding write
write_ok put d h = ground arith

identifiers :
    (relay_id peer_id : String) (port : ℤ)
    → read_identifiers (str relay_id) (str peer_id) (int port) ≡ ok (relay_id, peer_id, port)
    → (matches_relay_id relay_id ≡ true)
      × (matches_relay_id peer_id ≡ true)
      × (within (pos 1) (pos 65535) port ≡ true)
unfolding read_identifiers
identifiers relay_id peer_id port h = (ground arith, ground arith, ground arith)

-- The directory when everything has been written.
module _ (p : Platform) (w : World) (made : Generated) where
  initialize_locked-writes :
      (relay_id peer_id : String) (port : ℤ) (d : Directory)
      → 6 ≤ d.writes_left
      → (e : Directory) × (initialize_locked p w made relay_id peer_id port d ≡ status p w e)
        × (e.state ≡ some (obj (initial_state p made relay_id peer_id)))
        × (e.config ≡ some (obj (initial_config relay_id port)))
        × (Dict.contains (w.path "relay-cert.pem") e.pems ≡ true)
        × (Dict.contains (w.path "relay-key.pem") e.pems ≡ true)
  unfolding initialize_locked
  initialize_locked-writes relay_id peer_id port d h =
      let spend = λ (e : Directory). record e { writes_left = e.writes_left - 1 } in
      let d1 = put_pem w "relay-ca.pem" made.ca (spend d) in
      let d2 = put_pem w "relay-ca-key.pem" made.ca_key (spend d1) in
      let d3 = put_pem w "relay-cert.pem" made.cert (spend d2) in
      let d4 = put_pem w "relay-key.pem" made.key (spend d3) in
      let d5 = set_state (initial_state p made relay_id peer_id) (spend d4) in
      let d6 = set_config (initial_config relay_id port) (spend d5) in
      (
        d6,
        rw
            (
              write_ok (put_pem w "relay-ca.pem" made.ca) d (omega arith),
              write_ok (put_pem w "relay-ca-key.pem" made.ca_key) d1 (omega arith),
              write_ok (put_pem w "relay-cert.pem" made.cert) d2 (omega arith),
              write_ok (put_pem w "relay-key.pem" made.key) d3 (omega arith),
              write_ok (set_state (initial_state p made relay_id peer_id)) d4 (omega arith),
              write_ok (set_config (initial_config relay_id port)) d5 (omega arith),
            )
            refl,
        refl,
        refl,
        ground (
          arith,
          Dict.lookup-insert (w.path "relay-key.pem") (w.path "relay-cert.pem") made.key d3.pems,
          Dict.lookup-insert (w.path "relay-cert.pem") (w.path "relay-cert.pem") made.cert d2.pems,
          eq_refl (w.path "relay-cert.pem"),
        ),
        ground (
          arith,
          Dict.lookup-insert (w.path "relay-key.pem") (w.path "relay-key.pem") made.key d3.pems,
          eq_refl (w.path "relay-key.pem"),
        ),
      )

  status_returns :
      (fs config : Fields) (e : Directory)
      → load_state p e.state ≡ ok fs
      → load_config p e.config e.state (files_of w e) ≡ ok config
      → status p w e ≡ (ok (status_document p w fs config), e)
  unfolding status
  status_returns fs config e loads reads = rw (loads, reads) refl

  configured :
      (fs config : Fields) (c : ReceiverConfig) (e : Directory)
      → e.config ≡ some (obj config)
      → load p (some (obj config)) (files_of w e) ≡ ok c
      → load_state p e.state ≡ ok fs
      → get "relay_id" fs ≡ str c.relay_id
      → load_config p e.config e.state (files_of w e) ≡ ok config
  unfolding load_config check_config parse_config read_json
  configured fs config c e there reads loads same = ground (arith, eq_refl c.relay_id)

  -- Where the directory is empty, six writes are left, the identifiers and the port pass the checks,
  -- the drawn private key is 32 byte values, the platform is sound, 127.0.0.1 is a loopback address and the names of the
  -- certificate and its key resolve to the directory, `initialize` returns the status of the first state and
  -- configuration.
  pub initialize-returns :
      (sound : IsSound p) (relay_id peer_id : String) (port : ℤ) (d : Directory)
      → is_blank d ≡ true
      → 6 ≤ d.writes_left
      → read_identifiers (str relay_id) (str peer_id) (int port) ≡ ok (relay_id, peer_id, port)
      → IsBytes made.peer_private
      → length made.peer_private ≡ 32
      → w.files.is_loopback "127.0.0.1" ≡ some true
      → w.files.resolve "relay-cert.pem" ≡ w.path "relay-cert.pem"
      → w.files.resolve "relay-key.pem" ≡ w.path "relay-key.pem"
      → (initialize p w made (str relay_id) (str peer_id) (int port) d).0
        ≡ ok (
            status_document p w
              (initial_state p made relay_id peer_id)
              (initial_config relay_id port))
  unfolding initialize lookup
  initialize-returns sound relay_id peer_id port d blank left ids bytes fits loop cert key =
      let (m, n, within_range) = identifiers relay_id peer_id port ids in
      let fs = initial_state p made relay_id peer_id in
      let config = initial_config relay_id port in
      let (e, runs, state, written, has_cert, has_key) =
        initialize_locked-writes relay_id peer_id port d left in
      let (c, reads, same) =
        initial_config-loads p (files_of w e) relay_id port m within_range loop
          (rw (cert, has_cert) refl) (rw (key, has_key) refl) in
      let loads = initial_state-loads p sound made relay_id peer_id bytes fits m n in
      rw
        (
          ids,
          blank,
          runs,
          status_returns fs config e (rw state loads)
              (configured fs config c e written reads (rw state loads) (rw same refl)),
        )
        refl
