-- ===== src/LoadBalancer.antt =====
-- The load balancer service (pkg/cloud/resources/loadbalancer/loadbalancer.go). The load balancer of
-- a cluster is the one with the cluster's tag.
mod Find
mod Attach
mod Create
pub mod Run
pub mod Creation
mod Tests
unfoldable pub use Find.{find_load_balancer, api_to_status, format_ip, target_ids}
unfoldable pub use Attach.{attach_load_balancer_to_network}
unfoldable pub use Create.{create_load_balancer, add_services}
use cluster_api_provider_hcl.Base.{
  Text, text, ℕ, Bool, true, false, Option, none, some, List, [], ◌∷◌, ◌&&◌, ◌==◌, if◌then◌else◌,
  length, is_some,
}
use cluster_api_provider_hcl.Exec.{
  wrapped, Result, ok, err, panic, Exec, pure, fail, gets, of_result, wrapping, ◌>>=◌, ◌>>◌,
}
use cluster_api_provider_hcl.Api.{HcloudCluster, HcloudLoadBalancerStatus}
use cluster_api_provider_hcl.Hcloud.{Call, LoadBalancer, Env}
use cluster_api_provider_hcl.Scope.{ClusterScope, call, eventf, event_normal, update_hcloud_cluster}

set_status : HcloudLoadBalancerStatus → HcloudCluster → HcloudCluster
set_status status c = record c {
  status = record (c.status) { control_plane_load_balancer = status };
}

-- `apiToStatus`, then the assignment of the cluster's status
unfoldable pub store_status : Env → Text → LoadBalancer → Exec ClusterScope (Unit {0})
unfolding api_to_status set_status
store_status env message lb = do
  network ← gets (λ s. s.hcloud_cluster.status.network)
  status ← wrapping message (of_result (api_to_status env.net (is_some network) lb))
  update_hcloud_cluster (set_status status)

-- `if lb != nil { … }` of `Reconcile`
unfoldable pub refresh : Env → LoadBalancer → Exec ClusterScope (Unit {0})
unfolding store_status attach_load_balancer_to_network
refresh env lb = do
  store_status env (text "failed to obtain load balancer status") lb
  network ← gets (λ s. s.hcloud_cluster.status.network)
  if is_some network && (length lb.private_net == 0)
      then wrapping (text "failed to attach load balancer to network")
          (attach_load_balancer_to_network env lb)
      else pure tt

-- The load balancer that `Reconcile` goes on with: the one that it found, or a new one.
unfoldable pub ensure : Env → Option LoadBalancer → Exec ClusterScope LoadBalancer
unfolding refresh create_load_balancer
ensure env none = do
  spec ← gets (λ s. s.hcloud_cluster.spec.control_plane_load_balancer)
  wrapping (text "failed to create load balancer") (create_load_balancer env spec)
ensure env (some lb) = do refresh env lb; pure lb

-- `Service.Reconcile`
unfoldable pub reconcile : Env → Exec ClusterScope (Unit {0})
unfolding find_load_balancer ensure store_status
reconcile env = do
  found ← wrapping (text "failed to find load balancer") (find_load_balancer env)
  lb ← ensure env found
  store_status env (text "failed to refresh load balancer status") lb

-- `DeleteLoadBalancer` and what `Delete` does with its answer
delete_found : Env → LoadBalancer → Exec ClusterScope (Unit {0})
delete_found env lb s =
    let (r, s') =
      call (Call.delete_load_balancer lb.id) (λ h. env.hcloud.delete_load_balancer h lb.id) s in
    elim r [
      | ok u ↦ eventf event_normal (text "DeleteLoadBalancer") s'
      | err e ↦
          (do
            eventf event_normal (text "FailedLoadBalancerDelete")
            fail (wrapped (text "failed to delete load balancer") e))
            s'
      | panic ↦ (panic, s')
    ]

-- `Service.Delete`
unfoldable pub delete : Env → Exec ClusterScope (Unit {0})
unfolding find_load_balancer delete_found
delete env = do
  found ← wrapping (text "failed to refresh load balancer") (find_load_balancer env)
  elim found [
    | none ↦ eventf event_normal (text "UnknownLoadBalancer")
    | some lb ↦ delete_found env lb
  ]
