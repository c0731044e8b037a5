-- ===== src/BareMetal/Service.antt =====
-- `Reconcile` and `Delete` of the bare metal service.
use cluster_api_provider_hcl.Base.{
  Text, text, ℕ, ◌+◌, ◌*◌, true, false, Option, none, some, List, ◌++◌, not, str_eq, ltb,
  if◌then◌else◌,
}
use cluster_api_provider_hcl.Exec.{
  Error, failure, wrapped, Exec, pure, fail, gets, deref, wrapping, handle, ◌>>=◌, ◌>>◌,
}
use cluster_api_provider_hcl.Server.{Requeue}
use cluster_api_provider_hcl.Server.Kubeadm.{UserData}
use cluster_api_provider_hcl.BareMetal.{
  RobotServer, RobotCall, RobotEnv, BareMetalScope, ask, eventf, on_option, update_machine,
  check_rate_limit_exceeded,
}
use cluster_api_provider_hcl.BareMetal.Names.{unused_name}
use cluster_api_provider_hcl.BareMetal.Selection.{
  hours_before_deletion, list_matching_machines, find_attached_machine, find_new_machine,
}
use cluster_api_provider_hcl.BareMetal.Provision.{or_fail, provision_machine}

-- `rateLimitTimeOut` and `rateLimitTimeOutDeletion`
abbrev pub rate_limit_time_out : ℕ
rate_limit_time_out = 660

abbrev pub rate_limit_time_out_deletion : ℕ
rate_limit_time_out_deletion = 120

-- A rate limit that is exceeded is waited for; any other error goes on as `other`.
abbrev pub on_rate_limit : ℕ → Exec BareMetalScope Requeue → Error → Exec BareMetalScope Requeue
on_rate_limit seconds other e =
    if check_rate_limit_exceeded e
    then eventf (text "HrobotRateLimitExceeded") >> pure (some seconds)
    else other

-- A machine that is cancelled and paid until soon: the resource fails.
unfoldable pub check_cancelled : RobotEnv → RobotServer → Exec BareMetalScope (Unit {0})
check_cancelled env server =
    if server.cancelled
    then (do
      date ←
          or_fail (text "ERROR: Failed to parse paidUntil date. Error: %s")
            (env.parse_date server.paid_until)
      now ← gets (λ s. env.now s.trace)
      if ltb date (now + hours_before_deletion * 3600)
          then (do
            eventf (text "CancelledBareMetalMachine")
            update_machine λ m. record m {
              status = record (m.status) {
                failure_reason = some (text "UpdateError");
                failure_message =
                    some (text "Machine has been cancelled and is paid until less than36nshours");
                ready = false;
              };
            })
          else pure tt)
    else pure tt

-- The end of `Reconcile`.
unfoldable pub mark_running : RobotEnv → RobotServer → Exec BareMetalScope Requeue
mark_running env server = do
  update_machine λ m. record m {
    spec = record (m.spec) {
      provider_id = some (text "hcloud://" ++ env.print_number server.server_number);
    };
    status = record (m.status) { server_state = text "running"; ready = true };
  }
  pure none

module _ {Doc : Type 0} (env : RobotEnv) (user_data_lib : UserData Doc) where
  -- The machine that is found is provisioned.
  unfoldable pub provision : RobotServer → Exec BareMetalScope Requeue
  provision server =
      handle (provision_machine env user_data_lib server) (λ _. mark_running env server)
        (λ e.
          on_rate_limit rate_limit_time_out
            (fail (wrapped (text "Failed to provision new machine: %s") e)) e)

  -- The machine is provisioned once there is bootstrap data.
  unfoldable pub with_bootstrap_data : RobotServer → Option Text → Exec BareMetalScope Requeue
  with_bootstrap_data server none = pure (some 15)
  with_bootstrap_data server (some _) =
      update_machine
        (λ m. record m { status = record (m.status) { server_state = text "initializing" } })
      >> provision server

  -- What follows the search for a free machine.
  unfoldable pub with_new_server : RobotServer → Exec BareMetalScope Requeue
  with_new_server server =
      if not (str_eq server.status (text "ready"))
      then pure (some 300)
      else (gets (λ s. s.data_secret_name) >>= with_bootstrap_data server)

  unfoldable pub obtain_machine : List RobotServer → Exec BareMetalScope Requeue
  obtain_machine servers =
      wrapping (text "Failed to find new machine: %s") (find_new_machine servers)
      >>= with_new_server

  -- What follows the search for the attached machine.
  unfoldable pub with_attached : List RobotServer → Option RobotServer → Exec BareMetalScope Requeue
  with_attached servers none = obtain_machine servers
  with_attached servers (some server) = check_cancelled env server >> mark_running env server

  -- `Reconcile` from the list of machines on.
  unfoldable pub reconcile_servers : List RobotServer → Exec BareMetalScope Requeue
  reconcile_servers servers =
      wrapping (text "failed to find attached machine") (find_attached_machine servers)
      >>= with_attached servers

  unfoldable pub reconcile : Exec BareMetalScope Requeue
  reconcile = do
    token ← gets (λ s. s.hrobot_token_ref)
    on_option token
        (do
          eventf (text "NoTokenFound")
          fail (
              failure
                (text "ERROR: No token for Hetzner Robot provided: Cannot reconcile server %s")))
        (λ _. handle (list_matching_machines env) reconcile_servers (λ e.
          on_rate_limit rate_limit_time_out (fail (wrapped (text "failed to list machines") e)) e))

-- The end of `Delete`: the machine is renamed, and keeps its disks.
unfoldable pub give_back : RobotEnv → RobotServer → Exec BareMetalScope Requeue
give_back env server = do
  server_type ← gets (λ s. s.machine.spec.server_type)
  t ← deref server_type
  name ← gets (λ s. unused_name t s.machine.name)
  reply ←
      ask (RobotCall.set_bm_server_name server.server_ip name)
        (λ h. env.set_bm_server_name h server.server_ip name)
  or_fail (text "Unable to change bare metal server name: ") reply
  pure none

-- `Delete` from the list of machines on.
unfoldable pub delete_servers : RobotEnv → List RobotServer → Exec BareMetalScope Requeue
delete_servers env servers =
    handle (find_attached_machine servers)
      (λ attached.
        on_option attached (eventf (text "UnknownBareMetalMachine") >> pure none) (give_back env))
      (λ e.
        on_rate_limit rate_limit_time_out_deletion
          (fail (wrapped (text "failed to find attached machine") e)) e)

unfoldable pub delete : RobotEnv → Exec BareMetalScope Requeue
delete env = handle (list_matching_machines env) (delete_servers env) (λ e.
    on_rate_limit rate_limit_time_out_deletion
      (fail (wrapped (text "failed to refresh server status") e)) e)
