-- ===== src/Configuration/Initialize.antt =====
-- relay_configuration.py: `initialize`. The keys are drawn, and the x509 package gives the certificates.
use printer_hmi_remote.Prelude.{
  ℕ, String, Bool, true, false, not, ◌&&◌, ◌||◌, Option, none, some, [], ◌∷◌, configuration, Result,
  ok, need, raise_if,
}
use printer_hmi_remote.Prelude
use printer_hmi_remote.Prelude.Int.{ℤ, pos}
use printer_hmi_remote.Action.{Action, lift, gets, check, ◌>>=◌, ◌>>◌}
use printer_hmi_remote.Json.{
  Value, bool, int, str, arr, obj, nil, Fields, end, field, as_str, as_int,
}
use printer_hmi_remote.Dict
use printer_hmi_remote.Codec.Base64
use printer_hmi_remote.Codec.Base64.{Bytes}
use printer_hmi_remote.Codec.Pattern.{matches_relay_id}
use printer_hmi_remote.Codec.Time.{timestamp}
use printer_hmi_remote.Platform.{Platform}
use printer_hmi_remote.Transport.Config.{within}
use printer_hmi_remote.Configuration.Directory.{Directory, World, write, set_state, set_config}
use printer_hmi_remote.Configuration.Manage.{status}

-- What is drawn: the peer's private key, and the files of the two certificates and their keys.
pub record Generated : Type 0 where
  pub now : ℕ
  pub peer_private : Bytes
  pub ca : Bytes
  pub ca_key : Bytes
  pub cert : Bytes
  pub key : Bytes

-- The first checks of `initialize`.
unfoldable pub read_identifiers : Value → Value → Value → Result (String × String × ℤ)
read_identifiers relay peer port =
    Prelude.◌>>=◌ (need (as_str relay) (configuration "invalid relay identifier")) λ relay_id.
      Prelude.◌>>◌
        (raise_if (not (matches_relay_id relay_id)) (configuration "invalid relay identifier"))
        (Prelude.◌>>=◌ (need (as_str peer) (configuration "invalid relay peer identifier"))
          λ peer_id.
            Prelude.◌>>◌
              (raise_if (not (matches_relay_id peer_id))
                (configuration "invalid relay peer identifier"))
              (Prelude.◌>>=◌ (need (as_int port) (configuration "invalid relay listener port"))
                λ number.
                  Prelude.◌>>◌
                    (raise_if (not (within (pos 1) (pos 65535) number))
                      (configuration "invalid relay listener port"))
                    (ok (relay_id, peer_id, number))))

-- There is nothing in the directory but the lock.
unfoldable pub is_blank : Directory → Bool
is_blank d =
    elim d.state [ none ↦ true | some _ ↦ false ]
    && elim d.config [ none ↦ true | some _ ↦ false ]
    && elim d.pems [ [] ↦ true | _ ∷ _ ↦ false ]
    && not d.others

abbrev pub initial_config : String → ℤ → Fields
initial_config relay_id port = field "schema_version" (int (pos 1)) (
    field "enabled" (bool false) (
      field "relay_id" (str relay_id) (
        field "listen_host" (str "127.0.0.1") (
          field "listen_port" (int port) (
            field "api_socket" (str "runtime/receiver.sock") (
              field "state_file" (str "runtime/latest.json") (
                field "cert_file" (str "relay-cert.pem") (
                  field "key_file" (str "relay-key.pem")
                    (field "stale_after" (int (pos 30)) (field "devices" (arr nil) end))))))))))

module _ (p : Platform) where
  abbrev pub initial_state : Generated → String → String → Fields
  initial_state made relay_id peer_id = field "schema_version" (int (pos 1)) (
      field "relay_id" (str relay_id) (
        field "peer_id" (str peer_id) (
          field "peer_public_key" (str (Base64.encode (p.public_key made.peer_private))) (
            field "peer_private_key" (str (Base64.encode made.peer_private)) (
              field "created_at" (str (timestamp p made.now))
                (field "pending_challenges" (obj end) end))))))

-- A file under `self.directory / name`.
abbrev pub put_pem : World → String → Bytes → Directory → Directory
put_pem w name payload d = record d { pems = Dict.insert (w.path name) payload d.pems }

module _ (p : Platform) (w : World) where
  -- `_write_file`
  abbrev write_pem : String → Bytes → Action Directory Unit
  write_pem name payload = write (put_pem w name payload)

  -- `_initialize_locked`
  unfoldable pub initialize_locked : Generated → String → String → ℤ → Action Directory Value
  initialize_locked made relay_id peer_id port =
      write_pem "relay-ca.pem" made.ca
      >> (write_pem "relay-ca-key.pem" made.ca_key
          >> (write_pem "relay-cert.pem" made.cert
              >> (write_pem "relay-key.pem" made.key
                  >> (write (set_state (initial_state p made relay_id peer_id))
                      >> (write (set_config (initial_config relay_id port)) >> status p w)))))

  unfoldable pub initialize : Generated → Value → Value → Value → Action Directory Value
  initialize made relay peer port = do
    (relay_id, peer_id, number) ← lift (read_identifiers relay peer port)
    blank ← gets is_blank
    check (not blank) (configuration "refusing to initialize a non-empty directory")
    initialize_locked made relay_id peer_id number
