-- ===== src/Controllers/Cluster.antt =====
-- `reconcileDelete` and `reconcileNormal` of controllers/hcloudcluster_controller.go.
mod Machines
mod Manifests
pub mod Endpoint
pub mod Applied
pub mod Release
unfoldable pub use Machines.{list_machines}
unfoldable pub use Manifests.{
  needs_apply, scan_addresses, scan_machines, apply_manifests, reconcile_manifests,
}
use cluster_api_provider_hcl.Base.{
  Text, text, ℕ, ◌%◌, ◌^◌, ◌==◌, Bool, true, false, not, ◌&&◌, Option, none, some, List, [], ◌∷◌,
  length, str_eq, if◌then◌else◌,
}
use cluster_api_provider_hcl.Exec.{
  Error, failure, wrapped, no_ready_api_server, Result, ok, err, panic, Reply, success, refusal,
  Exec, pure, fail, gets, deref, within, modify, wrapping, ◌>>=◌, ◌>>◌,
}
use cluster_api_provider_hcl.Api.{
  HcloudCluster, HcloudMachine, ApiEndpoint, LoadBalancerServiceSpec, cluster_finalizer,
}
use cluster_api_provider_hcl.Hcloud.{Call, Machine, Env}
use cluster_api_provider_hcl.Scope.{
  ClusterScope, call, ask, eventf, event_normal, update_hcloud_cluster,
}
use cluster_api_provider_hcl.Location
use cluster_api_provider_hcl.Location.{cluster_local_scope}
use cluster_api_provider_hcl.Network
use cluster_api_provider_hcl.LoadBalancer
use cluster_api_provider_hcl.Server.{Requeue}
use cluster_api_provider_hcl.Controllers.Finalizers.{add_finalizer, remove_finalizer}

-- The reconciler and the scope: whether `targetClusterManagersStopCh` has the cluster's key.
pub record Reconciler : Type 0 where
  pub scope : ClusterScope
  pub has_manager : Bool

unfoldable pub on_scope : {A : Type 0} → Exec ClusterScope A → Exec Reconciler A
on_scope = within (λ r. r.scope) (λ s r. record r { scope = s })

-- `reconcileTargetClusterManager`, less what the started manager does when it ends
unfoldable pub reconcile_target_cluster_manager : Env → Exec Reconciler (Unit {0})
unfolding on_scope
reconcile_target_cluster_manager env = do
  has_manager ← gets (λ r. r.has_manager)
  is_deleted ← gets (λ r. r.scope.hcloud_cluster.is_deleted)
  if not has_manager && not is_deleted
      then (do
        wrapping (text "failed to create a clusterManager for HcloudCluster %s/%s") (
            on_scope
              (call Call.new_target_cluster_manager (λ h. env.kube.new_target_cluster_manager h)))
        modify λ r. record r {
          has_manager = true;
          scope = record (r.scope) { trace = Call.start_target_cluster_manager ∷ r.scope.trace };
        })
      else if has_manager && is_deleted
      then (modify λ r. record r {
        has_manager = false;
        scope = record (r.scope) { trace = Call.stop_target_cluster_manager ∷ r.scope.trace };
      })
      else pure tt

-- `RemoveFinalizer`
unfoldable pub release : Exec ClusterScope Requeue
unfolding remove_finalizer
release = do
  update_hcloud_cluster
      (λ c. record c { finalizers = remove_finalizer cluster_finalizer c.finalizers })
  pure none

-- The end of `reconcileDelete`, once no machine is left
unfoldable pub tear_down : Env → Exec ClusterScope Requeue
unfolding LoadBalancer.delete Network.delete release
tear_down env =
    wrapping (text "failed to delete load balancers for HcloudCluster %s/%s")
      (LoadBalancer.delete env)
    >> (wrapping (text "failed to delete network for HcloudCluster %s/%s") (Network.delete env)
        >> release)

-- `reconcileDelete` on the machines that are left
unfoldable pub wait_or_tear_down : Env → List (Machine × HcloudMachine) → Exec ClusterScope Requeue
unfolding tear_down
wait_or_tear_down env [] = tear_down env
wait_or_tear_down env (m ∷ rest) = do
  eventf event_normal (text "WaitingForMachineDeletion")
  pure (some 10)

-- `reconcileDelete` after the manager has been stopped
unfoldable pub delete_resources : Env → Exec ClusterScope Requeue
unfolding list_machines wait_or_tear_down
delete_resources env =
    wrapping (text "failed to list machines for HcloudCluster %s/%s") (list_machines env)
    >>= wait_or_tear_down env

-- `reconcileDelete`
unfoldable pub reconcile_delete : Env → Exec Reconciler Requeue
unfolding reconcile_target_cluster_manager on_scope delete_resources
reconcile_delete env = do reconcile_target_cluster_manager env; on_scope (delete_resources env)

-- The defaults that a load balancer's address and port give to an endpoint.
unfoldable pub default_endpoint : Text → ℕ → Option ApiEndpoint → ApiEndpoint
default_endpoint host port none = record { host = host; port = port }
default_endpoint host port (some e) = record {
  host = if str_eq e.host [] then host else e.host;
  port = if e.port == 0 then port else e.port;
}

-- The endpoint of the cluster after its load balancer; `int32(port)` keeps 32 bits
unfoldable pub set_endpoint : Exec ClusterScope (Unit {0})
unfolding default_endpoint
set_endpoint = do
  ipv4 ← gets (λ s. s.hcloud_cluster.status.control_plane_load_balancer.ipv4)
  services ← gets (λ s. s.hcloud_cluster.spec.control_plane_load_balancer.services)
  if str_eq ipv4 (text "<nil>") then pure tt else (do
    service ← deref (elim services [ [] ↦ none | s ∷ rest ↦ some s ])
    update_hcloud_cluster λ c. record c {
      spec = record (c.spec) {
        control_plane_endpoint = some (
            default_endpoint ipv4 (service.destination_port % 2 ^ 32)
              c.spec.control_plane_endpoint);
      };
      status = record (c.status) { ready = true };
    })

-- `reconcileNormal` up to the manifests
unfoldable pub reconcile_resources : Env → Exec ClusterScope (Unit {0})
unfolding add_finalizer Location.reconcile cluster_local_scope Network.reconcile
    LoadBalancer.reconcile set_endpoint
reconcile_resources env = do
  update_hcloud_cluster
      (λ c. record c { finalizers = add_finalizer cluster_finalizer c.finalizers })
  wrapping (text "failed to reconcile location for HcloudCluster %s/%s")
      (Location.reconcile (cluster_local_scope env))
  wrapping (text "failed to reconcile network for HcloudCluster %s/%s") (Network.reconcile env)
  wrapping (text "failed to reconcile load balancers for HcloudCluster %s/%s")
      (LoadBalancer.reconcile env)
  set_endpoint

-- Whether an error is `errNoReadyAPIServer` itself.
unfoldable pub is_no_ready_api_server : Error → Bool
is_no_ready_api_server no_ready_api_server = true
is_no_ready_api_server e = false

-- `reconcileManifests` and the two tests of its error; false is to come back later
unfoldable pub try_manifests : Env → Exec ClusterScope Bool
unfolding reconcile_manifests is_no_ready_api_server
try_manifests env s =
    let (r, s') = reconcile_manifests env s in
    elim r [
      | ok u ↦ (ok true, s')
      | panic ↦ (panic, s')
      | err e ↦
          if is_no_ready_api_server e
          then (
            ok false,
            record s' { trace = Call.event event_normal (text "APIServerNotReady") ∷ s'.trace },
          )
          else (err (wrapped (text "failed to reconcile manifests for HcloudCluster %s/%s") e), s')
    ]

-- `reconcileNormal`
unfoldable pub reconcile_normal : Env → Exec Reconciler Requeue
unfolding on_scope reconcile_resources try_manifests reconcile_target_cluster_manager
reconcile_normal env = do
  on_scope (reconcile_resources env)
  applied ← on_scope (try_manifests env)
  if applied then (do reconcile_target_cluster_manager env; pure none) else pure (some 10)
