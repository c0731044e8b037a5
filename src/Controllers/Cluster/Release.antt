-- ===== src/Controllers/Cluster/Release.antt =====
-- When the cluster controller gives up its finalizer.
use cluster_api_provider_hcl.Base.{
  Text, text, false, none, List, [], ◌∷◌, mem_text, ◌≡◌, ◌≢◌, ◌⊎◌, inl, inr, refl, ap, arith,
}
use cluster_api_provider_hcl.Exec.{ok, Exec, wrapping, ◌>>◌}
use cluster_api_provider_hcl.Exec.Ensures.{bind-ok, wrapping-ok}
use cluster_api_provider_hcl.Exec.Keeps.{
  Keeps, KeepsUnless, Keeps-wrapping, KeepsUnless-bind, is_done_or_not,
}
use cluster_api_provider_hcl.Network.Safety.{network_delete_owned_only}
use cluster_api_provider_hcl.Api.{HcloudCluster, HcloudMachine, cluster_finalizer}
use cluster_api_provider_hcl.Hcloud.{Machine, Env}
use cluster_api_provider_hcl.Scope.{ClusterScope}
use cluster_api_provider_hcl.LoadBalancer
use cluster_api_provider_hcl.LoadBalancer.Run.{DeleteDone, load_balancer_deleted}
use cluster_api_provider_hcl.Network
use cluster_api_provider_hcl.Controllers.Finalizers.{remove_finalizer-mem}
use cluster_api_provider_hcl.Controllers.Cluster.{
  Reconciler, on_scope, release, wait_or_tear_down, list_machines, tear_down, delete_resources,
  reconcile_delete, reconcile_target_cluster_manager,
}

-- What has been done when the end of `reconcileDelete` reports success.
abbrev pub TornDown : Env → ClusterScope → ClusterScope → Type 0
TornDown env s s' =
    DeleteDone env s (LoadBalancer.delete env s).1
    × ((Network.delete env (LoadBalancer.delete env s).1).0 ≡ ok tt)
    × (s'.trace ≡ (Network.delete env (LoadBalancer.delete env s).1).1.trace)
    × (mem_text cluster_finalizer s'.hcloud_cluster.finalizers ≡ false)

abbrev delete_network : Env → Exec ClusterScope (Unit {0})
delete_network env =
    wrapping (text "failed to delete network for HcloudCluster %s/%s") (Network.delete env)

tear_down_done :
    (env : Env) (s : ClusterScope)
    → (tear_down env s).0 ≡ ok none
    → TornDown env s (tear_down env s).1
tear_down_done env s h =
    let message = text "failed to delete load balancers for HcloudCluster %s/%s" in
    let (u, q, k, e) =
      bind-ok (wrapping message (LoadBalancer.delete env)) (λ u. delete_network env >> release) s
        none (unfold tear_down in h) in
    let s1 = (LoadBalancer.delete env s).1 in
    let (v, p, j, f) = bind-ok (delete_network env) (λ v. release) s1 none k in
    let gone =
      wrapping-ok (text "failed to delete network for HcloudCluster %s/%s") (Network.delete env) s1
        tt p in
    unfold tear_down in
    rw e (
      rw f (
        unfold release in
        (
          load_balancer_deleted env s (wrapping-ok message (LoadBalancer.delete env) s tt q),
          gone,
          refl,
          remove_finalizer-mem cluster_finalizer
              (Network.delete env s1).1.hcloud_cluster.finalizers,
        )))

-- No machine was left, and the load balancer and the network have been deleted after that.
abbrev pub Released : Env → ClusterScope → ClusterScope → Type 0
Released env s s' = ((list_machines env s).0 ≡ ok []) × TornDown env (list_machines env s).1 s'

delete_resources_done :
    (env : Env) (s : ClusterScope)
    → (delete_resources env s).0 ≡ ok none
    → Released env s (delete_resources env s).1
delete_resources_done env s h =
    let (machines, q, k, e) =
      bind-ok (wrapping message (list_machines env)) (wait_or_tear_down env) s none
        (unfold delete_resources in h) in
    unfold delete_resources in
    rw e (go machines (wrapping-ok message (list_machines env) s machines q) k)
  where
    message : Text
    message = text "failed to list machines for HcloudCluster %s/%s"

    go :
        (machines : List (Machine × HcloudMachine))
        → (list_machines env s).0 ≡ ok machines
        → (wait_or_tear_down env machines (list_machines env s).1).0 ≡ ok none
        → Released env s (wait_or_tear_down env machines (list_machines env s).1).1
    go [] q k =
        unfold wait_or_tear_down in
        (q, tear_down_done env (list_machines env s).1 (unfold wait_or_tear_down in k))
    go (m ∷ rest) q k = absurd (unfold wait_or_tear_down in cc)

abbrev finalizers : ClusterScope → List Text
finalizers s = s.hcloud_cluster.finalizers

list_machines-Keeps : (env : Env) → Keeps finalizers (list_machines env)
unfolding list_machines
list_machines-Keeps env = record { at = λ s. ground arith }

load_balancer_delete-Keeps : (env : Env) → Keeps finalizers (LoadBalancer.delete env)
unfolding LoadBalancer.delete LoadBalancer.find_load_balancer
load_balancer_delete-Keeps env = record { at = λ s. ground arith }

delete_network-Keeps : (env : Env) → Keeps finalizers (delete_network env)
delete_network-Keeps env = record {
  at = λ s. ap (λ (c : HcloudCluster). c.finalizers) (network_delete_owned_only env s).1;
}

tear_down-Keeps : (env : Env) → KeepsUnless none finalizers (tear_down env)
unfolding tear_down
tear_down-Keeps env =
    KeepsUnless-bind none
      (wrapping (text "failed to delete load balancers for HcloudCluster %s/%s")
        (LoadBalancer.delete env))
      (λ u. delete_network env >> release)
      (Keeps-wrapping _ (LoadBalancer.delete env) (load_balancer_delete-Keeps env))
      λ u.
        KeepsUnless-bind none (delete_network env) (λ v. release) (delete_network-Keeps env)
          (λ v. record { at = λ s n. absurd (n (unfold release in refl)) })

wait_or_tear_down-Keeps :
    (env : Env) (machines : List (Machine × HcloudMachine))
    → KeepsUnless none finalizers (wait_or_tear_down env machines)
unfolding wait_or_tear_down
wait_or_tear_down-Keeps env [] = tear_down-Keeps env
wait_or_tear_down-Keeps env (m ∷ rest) = record { at = λ s n. refl }

delete_resources-Keeps : (env : Env) → KeepsUnless none finalizers (delete_resources env)
unfolding delete_resources
delete_resources-Keeps env =
    KeepsUnless-bind none
      (wrapping (text "failed to list machines for HcloudCluster %s/%s") (list_machines env))
      (wait_or_tear_down env) (Keeps-wrapping _ (list_machines env) (list_machines-Keeps env))
      (wait_or_tear_down-Keeps env)

reconcile_target_cluster_manager-Keeps :
    (env : Env) → Keeps (λ r. finalizers r.scope) (reconcile_target_cluster_manager env)
unfolding reconcile_target_cluster_manager on_scope
reconcile_target_cluster_manager-Keeps env = record { at = λ s. ground arith }

reconcile_delete-Keeps :
    (env : Env) → KeepsUnless none (λ r. finalizers r.scope) (reconcile_delete env)
unfolding reconcile_delete on_scope
reconcile_delete-Keeps env =
    KeepsUnless-bind none (reconcile_target_cluster_manager env)
      (λ u. on_scope (delete_resources env)) (reconcile_target_cluster_manager-Keeps env)
      (λ u. record { at = λ s n. (delete_resources-Keeps env).at s.scope n })

-- When `reconcileDelete` ends with neither an error nor a time to come back.
cluster_deleted :
    (env : Env) (s : Reconciler)
    → (reconcile_delete env s).0 ≡ ok none
    → Released env (reconcile_target_cluster_manager env s).1.scope (reconcile_delete env s).1.scope
cluster_deleted env s h =
    let (u, q, k, e) =
      bind-ok (reconcile_target_cluster_manager env) (λ u. on_scope (delete_resources env)) s none
        (unfold reconcile_delete in h) in
    unfold reconcile_delete on_scope in
    rw e (
      delete_resources_done env (reconcile_target_cluster_manager env s).1.scope
        (unfold on_scope in k))

-- `reconcileDelete` of a cluster ends with neither an error nor a time to come back, and then the
-- cluster's finalizer is gone; before that, the management cluster listed no machine of the cluster,
-- then the cloud listed no load balancer of it or accepted the deletion of the only one, and then
-- the deletion of the network succeeded. Or it ends in another way, and then the cluster has the
-- finalizers that it had.
pub cluster-Released :
    (env : Env) (s : Reconciler)
    → (((reconcile_delete env s).0 ≡ ok none)
        × Released env
            (reconcile_target_cluster_manager env s).1.scope
            (reconcile_delete env s).1.scope)
      ⊎ (((reconcile_delete env s).0 ≢ ok none)
          × ((reconcile_delete env s).1.scope.hcloud_cluster.finalizers
              ≡ s.scope.hcloud_cluster.finalizers))
cluster-Released env s = elim (is_done_or_not (reconcile_delete env s).0) [
  | inl done ↦ inl (done, cluster_deleted env s done)
  | inr other ↦ inr (other, (reconcile_delete-Keeps env).at s other)
]
