-- ===== src/CommandLine.antt =====
-- cli.py: the commands of `main` that call the enrollment store and the local interface, and their exit
-- statuses.
use printer_hmi_remote.Prelude.{
  ℕ, String, Bool, true, false, ◌||◌, Option, none, some, List, [], ◌∷◌, str_eq, Error, enrollment,
  value, other, Result, ok, err, if◌then◌else◌,
}
use printer_hmi_remote.Action.{Action, pure, raise, lift, ◌>>=◌}
use printer_hmi_remote.Json.{Value, str, Fields, end, field, get, truthy}
use printer_hmi_remote.Platform.{Platform}
use printer_hmi_remote.Dict
use printer_hmi_remote.Dict.{Dict}
use printer_hmi_remote.Enrollment.Types.{Peer, Disk, Draw}
use printer_hmi_remote.Enrollment.Operations.{
  PublicIdentity, identity, create_pairing, consume_pairing, sign_relay_challenge, list_peers,
  revoke_peer, rotate_identity,
}
use printer_hmi_remote.Enrollment.Complete.{complete_relay_enrollment}

-- The roles whose own `main` is called with the rest of the arguments, by their modules.
abbrev pub component_commands : Dict String
component_commands =
    ("relay-config", "printerhmi_agent.relay_configuration")
    ∷ ("relay-integration", "printerhmi_agent.relay_integration")
    ∷ ("relay-receiver", "printerhmi_agent.relay_receiver")
    ∷ ("relay-worker", "printerhmi_agent.relay_worker")
    ∷ ("relay-sim", "printerhmi_agent.relay_simulator")
    ∷ []

-- The component that the first argument names.
unfoldable pub component_of : List String → Option String
component_of [] = none
component_of (argument ∷ arguments) = Dict.lookup argument component_commands

-- The actions of `enrollment`, with the options that they read. A request is what its file, or the
-- standard input, reads as.
pub data EnrollmentAction : Type 0 where
  show_identity : EnrollmentAction
  pair_create : ℕ → EnrollmentAction
  pair_consume : Option String → Option String → Option String → Option String → EnrollmentAction
  peers : EnrollmentAction
  revoke : Option String → EnrollmentAction
  challenge_sign : Option (Result Value) → EnrollmentAction
  relay_complete : Option (Result Value) → EnrollmentAction
  rotate : Bool → EnrollmentAction

-- What is printed.
pub data Printed : Type 0 where
  an_identity : PublicIdentity → Printed
  a_document : Value → Printed
  a_peer : Peer → Printed
  all_peers : List Peer → Printed

-- What `parser.error` raises.
abbrev pub usage : Error
usage = other "SystemExit"

-- An option that is given and is not empty.
abbrev given : Option String → Option String
given none = none
given (some s) = if str_eq s "" then none else some s

abbrev bind_option : {A B : Type 0} → Option A → (A → Option B) → Option B
bind_option none f = none
bind_option (some a) f = f a

-- `all(required)`
abbrev all_given :
    Option String → Option String → Option String → Option String → Option (List String)
all_given pairing_id code peer_id key = bind_option (given pairing_id) λ a.
    bind_option (given code)
      λ b. bind_option (given peer_id) λ c. bind_option (given key) λ d. some (a ∷ b ∷ c ∷ d ∷ [])

module _ (p : Platform) (draw : Draw) where
  abbrev consume_given : Option (List String) → Action Disk Printed
  consume_given (some (a ∷ b ∷ c ∷ d ∷ [])) =
      consume_pairing p draw (str a) (str b) (str c) (str d) >>= λ peer. pure (a_peer peer)
  consume_given _ = raise usage

  -- A request is read, and answered by one of the store's methods.
  abbrev answer : Option (Result Value) → (Value → Action Disk Value) → Action Disk Printed
  answer none method = raise usage
  answer (some read) method =
      lift read >>= λ document. method document >>= λ result. pure (a_document result)

  unfoldable pub enrollment_action : EnrollmentAction → Action Disk Printed
  enrollment_action show_identity = identity p draw >>= λ shown. pure (an_identity shown)
  enrollment_action (pair_create ttl) =
      create_pairing p draw ttl >>= λ offer. pure (a_document offer)
  enrollment_action (pair_consume pairing_id code peer_id key) =
      consume_given (all_given pairing_id code peer_id key)
  enrollment_action peers = list_peers p draw >>= λ listed. pure (all_peers listed)
  enrollment_action (revoke peer_id) = elim (given peer_id) [
    | none ↦ raise usage
    | some id ↦ revoke_peer p draw id >>= λ peer. pure (a_peer peer)
  ]
  enrollment_action (challenge_sign read) = answer read (sign_relay_challenge p draw)
  enrollment_action (relay_complete read) = answer read (complete_relay_enrollment p draw)
  enrollment_action (rotate confirmed) =
      rotate_identity p draw confirmed >>= λ shown. pure (an_identity shown)

-- `(EnrollmentError, OSError, json.JSONDecodeError)`
unfoldable pub is_enrollment_failure : Error → Bool
is_enrollment_failure (enrollment message) = true
is_enrollment_failure (other name) = str_eq name "OSError" || str_eq name "JSONDecodeError"
is_enrollment_failure _ = false

-- The exit status of `enrollment`, where `main` returns one.
unfoldable pub enrollment_status : Result Printed → Option ℕ
unfolding is_enrollment_failure
enrollment_status (ok printed) = some 0
enrollment_status (err e) = if is_enrollment_failure e then some 1 else none

-- The request of `api`: `instance.get` wants an identifier.
unfoldable pub api_params : String → Option String → Result (Option Fields)
api_params method instance_id =
    if str_eq method "instance.get"
    then elim (given instance_id) [
      | none ↦ err usage
      | some id ↦ ok (some (field "instance_id" (str id) end))
    ]
    else ok none

-- `(OSError, asyncio.TimeoutError, ValueError)`
unfoldable pub is_unavailable : Error → Bool
is_unavailable (value message) = true
is_unavailable (other name) = str_eq name "OSError" || str_eq name "TimeoutError"
is_unavailable _ = false

-- The exit status of `api`, of the response.
unfoldable pub api_status : Result Fields → Option ℕ
unfolding is_unavailable
api_status (ok response) = if truthy (get "ok" response) then some 0 else some 1
api_status (err e) = if is_unavailable e then some 1 else none
