-- ===== src/BareMetal/Ssh.antt =====
-- Commands over SSH, and the keys that they need.
use cluster_api_provider_hcl.Base.{
  Text, text, ℕ, zero, suc, ◌/◌, Bool, true, false, Option, none, some, List, [], ◌∷◌, Dict, lookup,
  str_eq, if◌then◌else◌,
}
use cluster_api_provider_hcl.Exec.{
  Error, failure, wrapped, Result, ok, err, Reply, success, refusal, Exec, pure, fail, crash, gets,
  of_result, ◌>>=◌, ◌>>◌,
}
use cluster_api_provider_hcl.BareMetal.{
  RobotKey, RobotCall, SshOutput, RobotEnv, BareMetalScope, ask, record_call, on_reply, on_option,
}

-- `maxWaitingTimeForSSHConnection`
abbrev pub max_waiting_time_for_ssh_connection : ℕ
max_waiting_time_for_ssh_connection = 200

-- The loop of `runSSH` over the attempts that are left, with the last error.
unfoldable pub connect : RobotEnv → Text → ℕ → Option Error → Exec BareMetalScope (Option Error)
connect env ip zero last = pure last
connect env ip (suc left) last = do
  reply ← ask (RobotCall.dial ip) (λ h. env.dial h ip)
  on_reply reply (λ _. pure none)
      (λ e. record_call (RobotCall.sleep 30) >> connect env ip left (some e))

-- What `sess.Run` returns.
abbrev pub run_command : RobotEnv → Text → Text → Exec BareMetalScope SshOutput
run_command env ip command s =
    (ok (env.run s.trace ip command), record s { trace = RobotCall.run ip command ∷ s.trace })

abbrev pub no_output : Error → SshOutput
no_output e = record { stdout = []; stderr = []; error = some e }

-- The part of `runSSH` with a connection.
unfoldable pub run_session : RobotEnv → Text → Text → Exec BareMetalScope SshOutput
run_session env command ip = do
  session ← ask (RobotCall.new_session ip) (λ h. env.new_session h ip)
  on_reply session (λ _. run_command env ip command) (λ e. crash)

-- The part of `runSSH` after the loop.
unfoldable pub with_connection :
    RobotEnv → Text → Text → Option Error → Exec BareMetalScope SshOutput
unfolding run_session
with_connection env command ip none = run_session env command ip
with_connection env command ip (some e) =
    pure (no_output (wrapped (text "Unable to establish connection to remote server: %s") e))

-- `runSSH`, whose error is part of its output.
unfoldable pub run_ssh : RobotEnv → Text → Text → Text → Exec BareMetalScope SshOutput
unfolding connect with_connection
run_ssh env command ip private_key =
    on_reply (env.parse_private_key private_key)
      (λ _.
        connect env ip (max_waiting_time_for_ssh_connection / 30) none
        >>= with_connection env command ip)
      (λ e. pure (no_output (wrapped (text "unable to parse private key: %v") e)))

-- The names and keys of the secret.
pub record SshSecret : Type 0 where
  pub ssh_key_name : Text
  pub public_key : Text
  pub private_key : Text

abbrev pub require : Text → Dict Text → Result Text
require k secret = elim (lookup k secret) [
  | none ↦ err (failure (text "error key %s does not exist in secret/%s"))
  | some v ↦ ok v
]

-- `retrieveSSHSecret`
unfoldable pub retrieve_ssh_secret : RobotEnv → Exec BareMetalScope SshSecret
retrieve_ssh_secret env = do
  token ← gets (λ s. s.machine.spec.ssh_token_ref)
  namespace ← gets (λ s. s.cluster_namespace)
  reply ←
      ask (RobotCall.get_secret namespace token.token_name)
        (λ h. env.get_secret h namespace token.token_name)
  on_reply reply
      (λ secret. (do
        public_key ← of_result (require token.public_key secret)
        private_key ← of_result (require token.private_key secret)
        ssh_key_name ← of_result (require token.ssh_key_name secret)
        pure (record {
          ssh_key_name = ssh_key_name;
          public_key = public_key;
          private_key = private_key;
        })))
      (λ e. fail (wrapped (text "error getting referenced token secret/%s: %s") e))

-- The fingerprint of the last key of the name.
unfoldable find_fingerprint : Text → List RobotKey → Option Text → Option Text
find_fingerprint name [] found = found
find_fingerprint name (key ∷ keys) found =
    find_fingerprint name keys (if str_eq name key.name then some key.fingerprint else found)

-- The keys of a reply: the error of `ListBMKeys` is not looked at.
abbrev pub listed : Reply (List RobotKey) → List RobotKey
listed (success keys) = keys
listed (refusal e) = []

abbrev no_keys : List RobotKey → Bool
no_keys [] = true
no_keys (key ∷ keys) = false

unfoldable pub get_ssh_fingerprint_from_name : RobotEnv → Text → Exec BareMetalScope Text
unfolding find_fingerprint
get_ssh_fingerprint_from_name env name = do
  reply ← ask RobotCall.list_bm_keys (λ h. env.list_bm_keys h)
  if no_keys (listed reply)
      then fail (failure (text "No SSH Keys given"))
      else on_option (find_fingerprint name (listed reply) none)
          (fail (failure (text "No SSH key with name %s found"))) pure
