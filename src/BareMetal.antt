-- ===== src/BareMetal.antt =====
-- The machines of Hetzner Robot: the scope of a bare metal machine (pkg/scope/baremetal.go), its
-- resource (api/v1alpha3/baremetalmachine_types.go) and the service of pkg/baremetal/baremetal.go. A machine of Robot has no labels, so its name says whom it belongs to.
pub mod Names
pub mod Devices
pub mod Ssh
pub mod Selection
pub mod Provision
pub mod Service
pub mod Ownership
pub mod Choice
pub mod Attempts
mod Tests
pub mod Addresses
use cluster_api_provider_hcl.Base.{
  Text, text, ℕ, Bool, true, false, ◌||◌, Option, none, some, List, [], ◌∷◌, ◌++◌, Dict, lookup,
  contains,
}
use cluster_api_provider_hcl.Exec.{
  Error, failure, wrapped, bootstrap_data_not_ready, Result, ok, err, panic, Reply, success,
  refusal, Exec, fail, of_result, gets, modify, wrapping, ◌>>=◌, ◌>>◌,
}
use cluster_api_provider_hcl.Scope.{of_reply}

-- `sshTokenRef`
pub record SshTokenRef : Type 0 where
  pub public_key : Text
  pub private_key : Text
  pub ssh_key_name : Text
  pub token_name : Text

-- `BareMetalMachineSpec`
pub record BareMetalMachineSpec : Type 0 where
  pub ssh_token_ref : SshTokenRef
  pub provider_id : Option Text
  pub partition : Option Text
  pub image_path : Option Text
  pub server_type : Option Text

-- `BareMetalMachineStatus`
pub record BareMetalMachineStatus : Type 0 where
  pub ipv4 : Text
  pub ipv6 : Text
  pub server_id : ℕ
  pub server_name : Text
  pub ready : Bool
  pub server_state : Text
  pub cancelled : Bool
  pub reset : Bool
  pub rescue : Bool
  pub failure_reason : Option Text
  pub failure_message : Option Text

-- `BareMetalMachine`
pub record BareMetalMachine : Type 0 where
  pub name : Text
  pub namespace : Text
  pub finalizers : List Text
  pub deletion_requested : Bool
  pub spec : BareMetalMachineSpec
  pub status : BareMetalMachineStatus

-- `models.Server` of the client for Robot, with the fields that the service reads.
pub record RobotServer : Type 0 where
  pub server_ip : Text
  pub server_number : ℕ
  pub server_name : Text
  pub status : Text
  pub cancelled : Bool
  pub paid_until : Text

-- `models.Key`
pub record RobotKey : Type 0 where
  pub name : Text
  pub fingerprint : Text

-- A partition, and a block device, of `lsblk`; a nil list of children is none.
pub record BlockDeviceData : Type 0 where
  pub name : Text
  pub size : Text
  pub rotation : Bool
  pub type : Text
  pub label : Text

pub record BlockDevice : Type 0 where
  pub name : Text
  pub size : Text
  pub rotation : Bool
  pub type : Text
  pub label : Text
  pub children : Option (List BlockDeviceData)

-- What the service asks of Robot, of a machine over SSH and of Kubernetes, and its events.
pub data RobotCall : Type 0 where
  list_bm_servers list_bm_keys patch : RobotCall
  set_bm_server_name : Text → Text → RobotCall
  activate_rescue : Text → Text → RobotCall
  reset_bm_server : Text → RobotCall
  get_secret : Text → Text → RobotCall
  dial new_session : Text → RobotCall
  sleep : ℕ → RobotCall
  run : Text → Text → RobotCall
  event : Text → RobotCall

-- What was asked so far, the latest first.
abbrev pub Trace : Type 0
Trace = List RobotCall

-- The output of a command, and its error if it has one.
pub record SshOutput : Type 0 where
  pub stdout : Text
  pub stderr : Text
  pub error : Option Error

-- The other systems, whose answers depend on what was asked before, and library functions:
-- `time.Parse`, `time.Now` in seconds, `json.Unmarshal` into a variable with a value,
-- `ssh.ParsePrivateKey`, `%d`, and the
-- product of `strconv.ParseFloat` and a factor, as an integer.
pub record RobotEnv : Type 0 where
  pub list_bm_servers : Trace → Reply (List RobotServer)
  pub list_bm_keys : Trace → Reply (List RobotKey)
  pub set_bm_server_name : Trace → Text → Text → Reply (Unit {0})
  pub activate_rescue : Trace → Text → Text → Reply (Unit {0})
  pub reset_bm_server : Trace → Text → Reply (Unit {0})
  pub get_secret : Trace → Text → Text → Reply (Dict Text)
  pub patch : Trace → List Text → Reply (Unit {0})
  pub dial : Trace → Text → Reply (Unit {0})
  pub new_session : Trace → Text → Reply (Unit {0})
  pub run : Trace → Text → Text → SshOutput
  pub parse_date : Text → Reply ℕ
  pub now : Trace → ℕ
  pub unmarshal : List BlockDevice → Text → Reply (List BlockDevice)
  pub parse_private_key : Text → Reply (Unit {0})
  pub print_number : ℕ → Text
  pub parse_scaled : Text → ℕ → Reply ℕ

-- `BareMetalMachineScope`, with the parts of the cluster that the service reads.
pub record BareMetalScope : Type 0 where
  pub cluster_name : Text
  pub cluster_namespace : Text
  pub hrobot_token_ref : Option Text
  pub data_secret_name : Option Text
  pub machine : BareMetalMachine
  pub trace : Trace

-- A split on an answer, and on a pointer that may be nil.
module _ {A B : Type 0} where
  abbrev pub on_reply : Reply A → (A → B) → (Error → B) → B
  on_reply (success a) f g = f a
  on_reply (refusal e) f g = g e

  abbrev pub on_option : Option A → B → (A → B) → B
  on_option none b f = b
  on_option (some a) b f = f a

-- A call that is recorded, and its answer at that moment.
abbrev pub ask : {A : Type 0} → RobotCall → (Trace → Reply A) → Exec BareMetalScope (Reply A)
ask c answer s = (ok (answer s.trace), record s { trace = c ∷ s.trace })

abbrev pub call : {A : Type 0} → RobotCall → (Trace → Reply A) → Exec BareMetalScope A
call c answer s = (of_reply (answer s.trace), record s { trace = c ∷ s.trace })

abbrev pub record_call : RobotCall → Exec BareMetalScope (Unit {0})
record_call c = modify λ s. record s { trace = c ∷ s.trace }

abbrev pub eventf : Text → Exec BareMetalScope (Unit {0})
eventf reason = record_call (RobotCall.event reason)

abbrev pub update_machine : (BareMetalMachine → BareMetalMachine) → Exec BareMetalScope (Unit {0})
update_machine f = modify λ s. record s { machine = f s.machine }

-- Whether `err.Error()` contains a text: messages are format strings with the cause's text.
unfoldable pub error_contains : Text → Error → Bool
error_contains t (failure m) = contains m t
error_contains t (wrapped m e) = contains m t || error_contains t e
error_contains t _ = false

-- `checkRateLimitExceeded`
unfoldable pub check_rate_limit_exceeded : Error → Bool
unfolding error_contains
check_rate_limit_exceeded e = error_contains (text "rate limit exceeded") e

abbrev bootstrap_value : Dict Text → Result Text
bootstrap_value secret = elim (lookup (text "value") secret) [
  | none ↦ err (failure (text "error retrieving bootstrap data: secret value key is missing"))
  | some value ↦ ok value
]

-- `BareMetalMachineScope.GetRawBootstrapData`
unfoldable pub get_raw_bootstrap_data : RobotEnv → Exec BareMetalScope Text
get_raw_bootstrap_data env = do
  name ← gets (λ s. s.data_secret_name)
  namespace ← gets (λ s. s.machine.namespace)
  on_option name (fail bootstrap_data_not_ready) (λ secret_name. (do
    secret ← wrapping (text "failed to retrieve bootstrap data secret for BareMetalMachine %s/%s") (
        call (RobotCall.get_secret namespace secret_name)
          (λ h. env.get_secret h namespace secret_name))
    of_result (bootstrap_value secret)))
