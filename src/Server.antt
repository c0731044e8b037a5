-- ===== src/Server.antt =====
-- The server service (pkg/cloud/resources/server/server.go). The server of a machine is the one that
-- bears the machine's labels. A result is none for nil, else the seconds after which to come back.
mod Status
pub mod Kubeadm
mod Attachment
pub mod Create
mod Selector
mod Obtained
pub mod Ready
pub mod Removal
pub mod Addresses
pub mod Configure
mod Tests
unfoldable pub use Status.{
  increment, ipv4_addresses, ipv6_addresses, internal_addresses, set_status_from_api, create_labels,
}
unfoldable pub use Attachment.{
  selector, single, find_server, is_attached, after_target, add_target,
  reconcile_load_balancer_attachment, delete_target, delete_server_of_load_balancer,
}
unfoldable pub use Create.{create_server}
use cluster_api_provider_hcl.Base.{
  Text, text, ℕ, Bool, true, false, Option, none, some, List, [], ◌∷◌, ◌==◌, ◌||◌, ◌&&◌, not,
  str_eq, length, if◌then◌else◌, reverse,
}
use cluster_api_provider_hcl.Exec.{
  Error, failure, wrapped, Result, ok, err, panic, Reply, success, refusal, Exec, pure, fail, gets,
  deref, of_result, wrapping, ◌>>=◌, ◌>>◌,
}
use cluster_api_provider_hcl.Api.{
  NodeAddress, NodeAddressType, host_name, internal_ip, external_ip, internal_dns, external_dns,
  ServerStatus, running, off, other_status, HcloudMachineStatus,
}
use cluster_api_provider_hcl.Hcloud.{Call, Server, Env}
use cluster_api_provider_hcl.Scope.{
  ClusterScope, MachineScope, call, ask, eventf, event_normal, event_warning, on_cluster,
  update_hcloud_machine,
}
use cluster_api_provider_hcl.Scope.FailureDomain.{get_failure_domain}
use cluster_api_provider_hcl.Server.Kubeadm.{UserData}

-- `ctrl.Result`: the seconds after which to come back.
abbrev pub Requeue : Type 0
Requeue = Option ℕ

trim_left_v : Text → Text
trim_left_v [] = []
trim_left_v (c ∷ t) = let rest = trim_left_v t in if c == 0x76 then rest else c ∷ t

-- `strings.Trim(version, "v")`
unfoldable pub trim_v : Text → Text
unfolding trim_left_v
trim_v t = reverse (trim_left_v (reverse (trim_left_v t)))

-- `ClientConfig` and `ClientConfigWithAPIEndpoint` of pkg/scope/cluster.go, as far as they can fail,
-- and the host that the config points to: that of the cluster's endpoint, whatever endpoint is passed.
unfoldable pub client_config_with_api_endpoint : Env → Exec ClusterScope Text
client_config_with_api_endpoint env = do
  names_a_cluster ← call Call.get_kubeconfig (λ h. env.kube.kubeconfig h)
  endpoint ← gets (λ s. s.hcloud_cluster.spec.control_plane_endpoint)
  services ← gets (λ s. s.hcloud_cluster.spec.control_plane_load_balancer.services)
  if names_a_cluster
      then (do e ← deref endpoint; elim services [ [] ↦ deref none | service ∷ rest ↦ pure e.host ])
      else pure []

unfoldable pub is_external : NodeAddressType → Bool
is_external external_ip = true
is_external external_dns = true
is_external host_name = false
is_external internal_ip = false
is_external internal_dns = false

-- `Spec.ProviderID = &providerID; Status.Ready = true`
unfoldable pub set_ready : Env → Server → Exec MachineScope (Unit {0})
set_ready env server = update_hcloud_machine λ m. record m {
  spec = record (m.spec) { provider_id = some (env.net.provider_id server.id) };
  status = record (m.status) { ready = true };
}

-- The loop over the addresses, and what follows it; the loop ends at the first external address,
-- whatever the check of the API server says.
unfoldable pub check_addresses : Env → Server → List NodeAddress → Exec MachineScope Requeue
unfolding is_external client_config_with_api_endpoint set_ready
check_addresses env server [] = fail (failure (text "Not usable Address found"))
check_addresses env server (a ∷ addresses) =
    let rest = check_addresses env server addresses in
    if is_external a.type
    then (do
      host ← on_cluster (client_config_with_api_endpoint env)
      on_cluster (ask (Call.ready_check host) (λ h. env.kube.ready_check h host))
      set_ready env server
      pure none)
    else rest

unfoldable pub is_running : ServerStatus → Bool
is_running running = true
is_running off = false
is_running (other_status t) = false

-- `setStatusFromAPI` on the scope
unfoldable pub store_status : Env → Server → Exec MachineScope (Unit {0})
unfolding set_status_from_api
store_status env server = do
  status ← gets (λ s. s.hcloud_machine.status)
  next ← of_result (set_status_from_api env.net server status)
  update_hcloud_machine (λ m. record m { status = next })

-- `Reconcile` of a running control plane
unfoldable pub attach_and_check : Env → Server → Exec MachineScope Requeue
unfolding reconcile_load_balancer_attachment check_addresses
attach_and_check env server = do
  wrapping (text "failed to add server to load balancer")
      (on_cluster (reconcile_load_balancer_attachment env server))
  addresses ← gets (λ s. s.hcloud_machine.status.addresses)
  check_addresses env server addresses

-- `Reconcile` after `setStatusFromAPI`, of whether the machine is a control plane
unfoldable pub settle : Env → Server → Bool → Exec MachineScope Requeue
unfolding is_running set_ready attach_and_check
settle env server is_control_plane =
    if not (is_running server.status)
    then pure (some 2)
    else if not is_control_plane
    then (do set_ready env server; pure none)
    else attach_and_check env server

-- `Reconcile` from `setStatusFromAPI` on
unfoldable pub finish : Env → Server → Exec MachineScope Requeue
unfolding store_status settle
finish env server = do
  store_status env server
  is_control_plane ← gets (λ s. s.machine.is_control_plane)
  settle env server is_control_plane

module _ {Doc : Type 0} (env : Env) (user_data_lib : UserData Doc) where
  -- The server that `Reconcile` goes on with: the one that it found, or a new one.
  unfoldable pub obtain : Text → ℕ → Option Server → Exec MachineScope Server
  unfolding create_server
  obtain failure_domain image_id (some server) = pure server
  obtain failure_domain image_id none = do
    instance_ ←
        wrapping (text "failed to create server")
          (create_server env user_data_lib failure_domain image_id)
    server ← deref instance_
    on_cluster (eventf event_normal (text "SuccessfulCreate"))
    pure server

  -- `Reconcile` once the image is there
  unfoldable pub with_image : Text → ℕ → Exec MachineScope Requeue
  unfolding find_server obtain finish
  with_image failure_domain image_id = do
    found ← wrapping (text "failed to get server") (find_server env)
    server ← obtain failure_domain image_id found
    finish env server

  -- `EnsureImage` and what follows its error
  unfoldable pub ensure_image : Text → Exec MachineScope (Option ℕ)
  ensure_image version = do
    name ← gets (λ s. s.hcloud_machine.spec.image_name)
    r ←
        on_cluster
          (ask (Call.ensure_image version name) (λ h. env.kube.ensure_image h version name))
    elim r [
      | success image ↦ pure image
      | refusal e ↦ (do
        on_cluster (eventf event_warning (text "FailedEnsuringHcloudImage"))
        fail e)
    ]

  -- `GetFailureDomain`, and the machine's location
  unfoldable pub place : Exec MachineScope Text
  unfolding get_failure_domain
  place = do
    choice ← gets λ s.
        get_failure_domain s.machine.failure_domain s.machine.is_control_plane s.hcloud_machine.name
          s.cluster_scope.cluster.failure_domains
    failure_domain ← of_result choice
    update_hcloud_machine
        (λ m. record m { status = record (m.status) { location = failure_domain } })
    pure failure_domain

  -- The image of the machine's version
  unfoldable pub required_image : Exec MachineScope (Option ℕ)
  unfolding trim_v ensure_image
  required_image = do
    given ← gets (λ s. s.machine.version)
    version ← deref given
    ensure_image (trim_v version)

  -- The tests on the image and on the bootstrap data
  unfoldable pub await : Text → Option ℕ → Option Text → Exec MachineScope Requeue
  unfolding with_image
  await failure_domain none secret = pure (some 2)
  await failure_domain (some image_id) none = pure (some 15)
  await failure_domain (some image_id) (some secret) = with_image failure_domain image_id

  -- `Service.Reconcile`
  unfoldable pub reconcile : Exec MachineScope Requeue
  unfolding place required_image await
  reconcile = do
    failure_domain ← place
    image ← required_image
    secret ← gets (λ s. s.machine.data_secret_name)
    await failure_domain image secret

-- The switch of `Delete` on the server's status, and the event that follows it
unfoldable pub remove : Env → Server → Exec ClusterScope Requeue
remove env server = elim (server.status) [
  | running ↦ (do
    wrapping (text "failed to shutdown server")
        (call (Call.shutdown_server server.id) (λ h. env.hcloud.shutdown_server h server.id))
    pure (some 5))
  | off ↦ (do
    r ← ask (Call.delete_server server.id) (λ h. env.hcloud.delete_server h server.id)
    elim r [
      | success u ↦ (do
        eventf (text "HcloudServerDeleted") (text "Hcloud server %s deleted")
        pure none)
      | refusal e ↦ (do
        eventf event_warning (text "FailedDeleteHcloudServer")
        fail (wrapped (text "failed to delete server") e))
    ])
  | other_status t ↦ pure (some 5)
]

-- `Service.Delete`
unfoldable pub delete : Env → Exec MachineScope Requeue
unfolding find_server delete_server_of_load_balancer remove
delete env = do
  found ← wrapping (text "failed to refresh server status") (find_server env)
  on_cluster (elim found [
    | none ↦ (do eventf event_warning (text "NoInstanceFound"); pure none)
    | some server ↦ (do
      wrapping (text "Error while deleting attached server of loadbalancer: %s")
          (delete_server_of_load_balancer env server)
      remove env server)
  ])
