-- ===== src/Configuration/Manage.antt =====
-- relay_configuration.py: the operations of `RelayConfigurationManager` on an initialized directory.
use printer_hmi_remote.Prelude.{
  String, Bool, not, ◌&&◌, ◌==◌, str_eq, Option, configuration, if◌then◌else◌,
}
use printer_hmi_remote.Prelude.Int.{pos}
use printer_hmi_remote.Action.{Action, pure, lift, gets, check, ◌>>=◌, ◌>>◌}
use printer_hmi_remote.Json.{
  Value, bool, int, str, arr, obj, Items, nil, cons, Fields, end, field, get, insert, count, truthy,
}
use printer_hmi_remote.Platform.{Platform}
use printer_hmi_remote.Receiver.Config.{count_items}
use printer_hmi_remote.Configuration.Directory.{
  Directory, World, files_of, write, write_output, set_state,
}
use printer_hmi_remote.Configuration.Load.{load_state, load_config, parse_config, text_of}
use printer_hmi_remote.Configuration.Save.{save_config}
use printer_hmi_remote.Configuration.Request.{
  Fresh, fields_of, read_offer, check_expiry, request_of, with_pending,
}
use printer_hmi_remote.Configuration.Receipt.{
  entry, items_of, is_null, find_device, append_item, sort_items, device_of, read_receipt,
  without_pending,
}
use printer_hmi_remote.Json.{py_eq}

-- `[item["device_id"] for item in devices]`
unfoldable pub device_ids : Items → Items
device_ids nil = nil
device_ids (cons x xs) = cons (entry "device_id" x) (device_ids xs)

-- `[item for item in devices if item["device_id"] != device_id]`
unfoldable pub without_device : String → Items → Items
without_device id nil = nil
without_device id (cons x xs) =
    let rest = without_device id xs in
    if str_eq (text_of (entry "device_id" x)) id then rest else cons x rest

-- `config["devices"]`
abbrev pub devices_of : Fields → Items
devices_of config = items_of (get "devices" config)

-- `existing is not None and existing != device`
abbrev pub conflicts : Fields → Fields → Bool
conflicts config verified =
    let existing = find_device (get "device_id" verified) (devices_of config) in
    not (is_null existing) && not (py_eq existing (device_of verified))

-- `len(items)`, as a document.
abbrev length_of : Items → Value
length_of items = int (pos (count_items items))

module _ (p : Platform) (w : World) where
  abbrev loaded_state : Action Directory Fields
  loaded_state = gets (λ (d : Directory). load_state p d.state) >>= lift

  abbrev loaded_config : Action Directory Fields
  loaded_config = gets (λ (d : Directory). load_config p d.config d.state (files_of w d)) >>= lift

  unfoldable pub status_document : Fields → Fields → Value
  unfolding device_ids
  status_document state config = obj (
      field "schema_version" (int (pos 1)) (
        field "relay_id" (get "relay_id" state) (
          field "peer_id" (get "peer_id" state) (
            field "peer_public_key" (get "peer_public_key" state) (
              field "enabled" (get "enabled" config) (
                field "listen_host" (get "listen_host" config) (
                  field "listen_port" (get "listen_port" config) (
                    field "device_count" (length_of (devices_of config)) (
                      field "devices" (arr (device_ids (devices_of config))) (
                        field "pending_challenge_count"
                          (int (pos (count (fields_of (get "pending_challenges" state)))))
                          (field "config" (str (w.path "relay-receiver.json"))
                            (field "ca_certificate" (str (w.path "relay-ca.pem")) end))))))))))))

  -- `_status_unlocked`
  unfoldable pub status : Action Directory Value
  status = loaded_state >>= λ state. loaded_config >>= λ config. pure (status_document state config)

  unfoldable pub create_enrollment_request : Fresh → Option Value → String → Action Directory Value
  create_enrollment_request fresh offer_file output = do
    state ← loaded_state
    offer ← lift (read_offer p offer_file)
    lift (check_expiry p offer_file fresh.now)
    (challenge, request) ← lift (request_of p state offer fresh)
    write_output w (w.locate output) (obj request)
    write (set_state (with_pending state challenge offer))
    pure (
        obj (
          field "request" (str (w.locate output)) (
            field "challenge_id" (get "challenge_id" challenge) (
              field "device_id" (str offer.device_id)
                (field "expires_at" (get "expires_at" challenge) end)))))

  -- A device that is new is added to the configuration.
  unfoldable pub store_device : Fields → Fields → Action Directory Fields
  store_device config verified =
      let enrolled =
        insert "devices" (arr (sort_items (append_item (devices_of config) (device_of verified))))
          config in
      if is_null (find_device (get "device_id" verified) (devices_of config))
      then save_config p w enrolled >> pure enrolled
      else pure config

  -- The receipt's device is enrolled, unless it is already; a key that differs is refused.
  unfoldable pub enroll_device : Fields → Fields → Action Directory Fields
  unfolding store_device
  enroll_device config verified =
      check (conflicts config verified) (configuration "enrolled device key conflict")
      >> store_device config verified

  unfoldable pub add_receipt : Option Value → Action Directory Value
  add_receipt receipt_file = do
    state ← loaded_state
    config ← loaded_config
    verified ← lift (read_receipt p receipt_file state)
    enrolled ← enroll_device config verified
    write (set_state (without_pending state verified))
    parsed ← gets (λ (d : Directory). parse_config p d.config (files_of w d))
    lift parsed
    pure (
        obj (
          field "device_id" (get "device_id" verified) (
            field "device_count" (length_of (devices_of enrolled)) (
              field "already_enrolled"
                (bool (not (is_null (find_device (get "device_id" verified) (devices_of config)))))
                end))))

  -- `set_enabled` once it is confirmed.
  unfoldable pub set_confirmed : Bool → Action Directory Value
  set_confirmed enabled = do
    config ← loaded_config
    check (enabled && not (truthy (get "devices" config)))
        (configuration "cannot enable without enrolled devices")
    save_config p w (insert "enabled" (bool enabled) config)
    status

  unfoldable pub set_enabled : Bool → Bool → Action Directory Value
  unfolding set_confirmed
  set_enabled enabled confirmed =
      check (enabled && not confirmed) (configuration "enabling requires explicit confirmation")
      >> set_confirmed enabled

  -- `remove_device` once it is confirmed.
  unfoldable pub remove_confirmed : String → Action Directory Value
  unfolding without_device
  remove_confirmed device_id = do
    config ← loaded_config
    let retained = without_device device_id (devices_of config)
    check (count_items retained == count_items (devices_of config))
        (configuration "enrolled device was not found")
    check (truthy (get "enabled" config) && not (truthy (arr retained)))
        (configuration "disable the receiver before removing its final device")
    save_config p w (insert "devices" (arr retained) config)
    status

  unfoldable pub remove_device : String → Bool → Action Directory Value
  unfolding remove_confirmed
  remove_device device_id confirmed =
      check (not confirmed) (configuration "device removal requires confirmation")
      >> remove_confirmed device_id
