-- ===== src/BareMetal/Addresses/Machines.antt =====
-- Which machines `Reconcile` addresses.
use cluster_api_provider_hcl.Base.{
  Text, text, ℕ, Option, none, some, List, [], ◌∷◌, All, ◌≡◌, str_eq, not,
}
use cluster_api_provider_hcl.Exec.{
  failure, ◌>>◌, Error, ok, success, Exec, pure, fail, wrapped, gets, wrapping, handle, ◌>>=◌,
}
use cluster_api_provider_hcl.Exec.Ensures.{handle_after, wrapping-ok}
use cluster_api_provider_hcl.Server.{Requeue}
use cluster_api_provider_hcl.Server.Kubeadm.{UserData}
use cluster_api_provider_hcl.BareMetal.{
  RobotServer, RobotCall, RobotEnv, BareMetalScope, update_machine, eventf, on_option,
}
use cluster_api_provider_hcl.BareMetal.Selection.{
  list_matching_machines, find_attached_machine, is_free, first_free, find_new_machine, refuse_type,
}
use cluster_api_provider_hcl.BareMetal.Provision.{provision_machine}
use cluster_api_provider_hcl.BareMetal.Service.{
  on_rate_limit, rate_limit_time_out, check_cancelled, mark_running, obtain_machine, provision,
  with_bootstrap_data, with_new_server, with_attached, reconcile_servers, reconcile,
}
use cluster_api_provider_hcl.BareMetal.Addresses.{
  Addresses, Allowed, addresses_rules, Addresses-bind, Addresses-pure, Addresses-wrapping,
  Addresses-if, Addresses-bind_if, Addresses-handle, Addresses-fail, Addresses-gets,
  Addresses-update_machine,
}
use cluster_api_provider_hcl.BareMetal.Addresses.Lists.{
  first_free-Any, find_new_machine-ok, Listed, match_servers-Listed, list_matching_machines_lem,
}
use cluster_api_provider_hcl.BareMetal.Addresses.Commands.{
  provision_machine-Addresses, or_fail-Addresses,
}

module _ {Q : Text → Type 0} (env : RobotEnv) where
  pub on_rate_limit-Addresses :
      (seconds : ℕ) (m : Exec BareMetalScope Requeue) (e : Error)
      → Addresses Q m
      → Addresses Q (on_rate_limit seconds m e)
  unfolding Allowed
  on_rate_limit-Addresses seconds m e k = search addresses_rules depth 20

  mark_running-Addresses : (server : RobotServer) → Addresses Q (mark_running env server)
  unfolding mark_running
  mark_running-Addresses server = search addresses_rules depth 20

  check_cancelled-Addresses : (server : RobotServer) → Addresses Q (check_cancelled env server)
  unfolding check_cancelled Allowed
  check_cancelled-Addresses server = search (addresses_rules, or_fail-Addresses) depth 20

  pub find_attached_machine-Addresses :
      (servers : List RobotServer) → Addresses Q (find_attached_machine servers)
  unfolding find_attached_machine Allowed
  find_attached_machine-Addresses servers = search addresses_rules depth 20

  refuse_type-Addresses : (reason message : Text) → Addresses Q (refuse_type reason message)
  unfolding Allowed
  refuse_type-Addresses reason message = search addresses_rules depth 20

  find_new_machine-Addresses : (servers : List RobotServer) → Addresses Q (find_new_machine servers)
  unfolding find_new_machine
  find_new_machine-Addresses [] = refuse_type-Addresses _ _
  find_new_machine-Addresses (x ∷ xs) = search (addresses_rules, refuse_type-Addresses) depth 20

  module _ {Doc : Type 0} (user_data_lib : UserData Doc) where
    provision-Addresses :
        (server : RobotServer)
        → Q server.server_ip
        → Addresses Q (provision env user_data_lib server)
    unfolding provision
    provision-Addresses server own =
        Addresses-handle (provision_machine env user_data_lib server) (λ _. mark_running env server)
          (λ e.
            on_rate_limit rate_limit_time_out
              (fail (wrapped (text "Failed to provision new machine: %s") e)) e)
          (provision_machine-Addresses env user_data_lib server own)
          (λ _. mark_running-Addresses server)
          (λ e. on_rate_limit-Addresses rate_limit_time_out _ e (Addresses-fail _))

    with_bootstrap_data-Addresses :
        (server : RobotServer) (o : Option Text)
        → Q server.server_ip
        → Addresses Q (with_bootstrap_data env user_data_lib server o)
    unfolding with_bootstrap_data
    with_bootstrap_data-Addresses server none own = Addresses-pure (some 15)
    with_bootstrap_data-Addresses server (some _) own =
        Addresses-bind
          (update_machine
            (λ m. record m { status = record (m.status) { server_state = text "initializing" } }))
          (λ _. provision env user_data_lib server) (Addresses-update_machine _)
          (λ _. provision-Addresses server own)

    with_new_server-Addresses :
        (server : RobotServer)
        → Q server.server_ip
        → Addresses Q (with_new_server env user_data_lib server)
    unfolding with_new_server
    with_new_server-Addresses server own =
        Addresses-if (not (str_eq server.status (text "ready"))) (pure (some 300))
          (gets (λ s. s.data_secret_name) >>= with_bootstrap_data env user_data_lib server)
          (Addresses-pure (some 300))
          (Addresses-bind (gets (λ s. s.data_secret_name))
            (with_bootstrap_data env user_data_lib server) (Addresses-gets _)
            (λ o. with_bootstrap_data-Addresses server o own))

    -- The machine that is found free is the one that is addressed.
    obtain_machine-Addresses :
        (servers : List RobotServer)
        → ((server : RobotServer) → first_free servers ≡ some server → Q server.server_ip)
        → Addresses Q (obtain_machine env user_data_lib servers)
    unfolding obtain_machine
    obtain_machine-Addresses servers own =
        Addresses-bind_if (λ server. first_free servers ≡ some server)
          (wrapping (text "Failed to find new machine: %s") (find_new_machine servers))
          (with_new_server env user_data_lib)
          (λ s server h. find_new_machine-ok servers s server (
            wrapping-ok (text "Failed to find new machine: %s") (find_new_machine servers) s server
              h))
          (Addresses-wrapping _ (find_new_machine servers) (find_new_machine-Addresses servers))
          (λ server f. with_new_server-Addresses server (own server f))

    pub reconcile_servers-Addresses :
        (servers : List RobotServer)
        → ((server : RobotServer) → first_free servers ≡ some server → Q server.server_ip)
        → Addresses Q (reconcile_servers env user_data_lib servers)
    unfolding reconcile_servers
    reconcile_servers-Addresses servers own =
        Addresses-bind
          (wrapping (text "failed to find attached machine") (find_attached_machine servers))
          (with_attached env user_data_lib servers)
          (Addresses-wrapping _ (find_attached_machine servers)
            (find_attached_machine-Addresses servers))
          go
      where
        go : (o : Option RobotServer) → Addresses Q (with_attached env user_data_lib servers o)
        go none = unfold with_attached in obtain_machine-Addresses servers own
        go (some server) =
            unfold with_attached in
            Addresses-bind (check_cancelled env server) (λ _. mark_running env server)
              (check_cancelled-Addresses server) (λ _. mark_running-Addresses server)

-- Every machine that `Reconcile` renames, resets, brings into the rescue system or runs a command on
-- is, on the list that Robot gave at its start, free and of the wanted type, and not about to be
-- cancelled: no machine that is attached to this or another cluster.
pub reconcile-Allowed :
    {Doc : Type 0} (env : RobotEnv) (user_data_lib : UserData Doc) (s : BareMetalScope)
    (servers : List RobotServer)
    → s.trace ≡ []
    → env.list_bm_servers s.trace ≡ success servers
    → All
        (Allowed (
          Listed is_free env
            (env.now (RobotCall.list_bm_servers ∷ s.trace))
            s.cluster_name
            s.machine.spec.server_type
            servers))
        (reconcile env user_data_lib s).1.trace
unfolding reconcile Allowed
reconcile-Allowed env user_data_lib s servers t l = go s.hrobot_token_ref
  where
    Q : Text → Type 0
    Q =
        Listed is_free env (env.now (RobotCall.list_bm_servers ∷ s.trace)) s.cluster_name
          s.machine.spec.server_type servers

    others : Error → Exec BareMetalScope Requeue
    others e =
        on_rate_limit rate_limit_time_out (fail (wrapped (text "failed to list machines") e)) e

    own :
        (ms : List RobotServer)
        → (list_matching_machines env s).0 ≡ ok ms
        → (server : RobotServer) → first_free ms ≡ some server
        → Q server.server_ip
    own ms e server f =
        match_servers-Listed is_free env (env.now (RobotCall.list_bm_servers ∷ s.trace))
          s.cluster_name s.machine.spec.server_type servers ms server
          (rw (list_matching_machines_lem env s servers l) at e) (first_free-Any ms server f)

    before : All (Allowed Q) s.trace
    before = rw t tt

    listed : All (Allowed Q) (list_matching_machines env s).1.trace
    listed = rw (list_matching_machines_lem env s servers l) (tt, before)

    go :
        (o : Option Text)
        → All
            (Allowed Q)
            ((on_option o
                (eventf (text "NoTokenFound")
                  >> fail {A = Requeue} (
                      failure (
                        text
                          "ERROR: No token for Hetzner Robot provided: Cannot reconcile server %s")))
                (λ _.
                  handle (list_matching_machines env) (reconcile_servers env user_data_lib) others))
              s).1.trace
    go none = (tt, before)
    go (some _) =
        handle_after (λ s. All (Allowed Q) s.trace) (list_matching_machines env)
          (reconcile_servers env user_data_lib) others s
          (λ ms e. (reconcile_servers-Addresses env user_data_lib ms (own ms e)).at _ listed)
          (λ e.
            (on_rate_limit-Addresses env rate_limit_time_out _ e (Addresses-fail _)).at _ listed)
          listed
