-- ===== src/Server/Attachment.antt =====
-- How the server service looks for the machine's server and attaches it to the cluster's load
-- balancer (`findServer`, `reconcileLoadBalancerAttachment`, `deleteServerOfLoadBalancer` of
-- pkg/cloud/resources/server/server.go).
use cluster_api_provider_hcl.Base.{
  Text, text, ℕ, Bool, false, Option, none, some, List, [], ◌∷◌, ltb, length, ◌||◌, ◌==◌, ◌&&◌,
  if◌then◌else◌,
}
use cluster_api_provider_hcl.Exec.{
  failure, Reply, success, refusal, Exec, pure, fail, gets, deref, of_result, ◌>>=◌, ◌>>◌,
}
use cluster_api_provider_hcl.Api.Tags.{labels_to_label_selector}
use cluster_api_provider_hcl.Hcloud.{Call, LoadBalancer, Server, Env}
use cluster_api_provider_hcl.Scope.{
  ClusterScope, MachineScope, call, ask, eventf, event_normal, event_warning, on_cluster,
}
use cluster_api_provider_hcl.LoadBalancer.{find_load_balancer, target_ids}
use cluster_api_provider_hcl.Server.Status.{create_labels}

-- The selector of the machine's server.
unfoldable pub selector : MachineScope → Text
unfolding create_labels
selector s = labels_to_label_selector (
    create_labels s.cluster_scope.hcloud_cluster.name s.hcloud_machine.name
      s.machine.is_control_plane)

-- The tests of `findServer` on the answer.
unfoldable pub single : List Server → Exec ClusterScope (Option Server)
single [] = pure none
single (server ∷ []) = pure (some server)
single (a ∷ b ∷ servers) = do
  eventf event_warning (text "MultipleInstances")
  fail (failure (text "Found %v servers with name %s"))

-- `findServer`
unfoldable pub find_server : Env → Exec MachineScope (Option Server)
unfolding selector single
find_server env = do
  labels ← gets selector
  on_cluster (do
    servers ← call (Call.list_servers labels) (λ h. env.hcloud.list_servers h labels)
    single servers)

-- Whether a loop over the targets finds the server.
unfoldable pub is_attached : ℕ → List ℕ → Bool
is_attached id [] = false
is_attached id (target ∷ targets) = (target == id) || is_attached id targets

-- What follows a request to change a target: an event, or the error.
unfoldable pub after_target : Text → Reply (Unit {0}) → Exec ClusterScope (Unit {0})
after_target reason (success u) = eventf event_normal reason
after_target reason (refusal e) = fail e

-- The loop over the targets, and the request when the server is none of them.
unfoldable pub add_target : Env → Server → LoadBalancer → Exec ClusterScope (Unit {0})
unfolding target_ids is_attached after_target
add_target env server lb = do
  targets ← of_result (target_ids lb.targets)
  if is_attached server.id targets then pure tt else (do
    r ←
        ask
          (Call.add_target_server_to_load_balancer lb.id server.id
            (ltb 0 (length server.private_net)))
          (λ h.
            env.hcloud.add_target_server_to_load_balancer h lb.id server.id
              (ltb 0 (length server.private_net)))
    after_target (text "AddedAsTargetToLoadBalancer") r)

-- `reconcileLoadBalancerAttachment`
unfoldable pub reconcile_load_balancer_attachment : Env → Server → Exec ClusterScope (Unit {0})
unfolding find_load_balancer add_target
reconcile_load_balancer_attachment env server = do
  found ← find_load_balancer env
  lb ← deref found
  if ltb 0 (length server.private_net) && (length lb.private_net == 0)
      then pure tt
      else add_target env server lb

-- The request of `deleteServerOfLoadBalancer`, when the server is still a target.
unfoldable pub delete_target : Env → Server → LoadBalancer → Exec ClusterScope (Unit {0})
unfolding target_ids is_attached after_target
delete_target env server lb = do
  targets ← of_result (target_ids lb.targets)
  if is_attached server.id targets
      then (do
        r ←
            ask (Call.delete_target_server_of_load_balancer lb.id server.id)
              (λ h. env.hcloud.delete_target_server_of_load_balancer h lb.id server.id)
        after_target (text "DeletedTargetOfLoadBalancer") r)
      else pure tt

-- `deleteServerOfLoadBalancer`
unfoldable pub delete_server_of_load_balancer : Env → Server → Exec ClusterScope (Unit {0})
unfolding find_load_balancer delete_target
delete_server_of_load_balancer env server = do
  found ← find_load_balancer env
  lb ← deref found
  delete_target env server lb
