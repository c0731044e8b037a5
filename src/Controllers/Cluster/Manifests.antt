-- ===== src/Controllers/Cluster/Manifests.antt =====
-- `reconcileManifests` of controllers/hcloudcluster_controller.go.
use cluster_api_provider_hcl.Base.{
  Text, text, Bool, true, false, not, ◌||◌, Option, none, some, List, [], ◌∷◌, str_eq,
  if◌then◌else◌,
}
use cluster_api_provider_hcl.Exec.{
  no_ready_api_server, Exec, pure, fail, gets, deref, wrapping, ◌>>=◌, ◌>>◌,
}
use cluster_api_provider_hcl.Api.{NodeAddress, HcloudMachine, HcloudClusterStatusManifests}
use cluster_api_provider_hcl.Hcloud.{Call, Machine, Env}
use cluster_api_provider_hcl.Scope.{
  ClusterScope, call, ask, eventf, event_normal, update_hcloud_cluster,
}
use cluster_api_provider_hcl.Server.{is_external, client_config_with_api_endpoint}
use cluster_api_provider_hcl.Controllers.Cluster.Machines.{list_machines}

-- The inner loop: whether it leaves both loops with a client config. The error of the check of the
-- API server is only collected, and the loops end all the same.
unfoldable pub scan_addresses : Env → List NodeAddress → Exec ClusterScope Bool
unfolding is_external client_config_with_api_endpoint
scan_addresses env [] = pure false
scan_addresses env (a ∷ addresses) =
    let rest = scan_addresses env addresses in
    if is_external a.type
    then (do
      host ← client_config_with_api_endpoint env
      ask (Call.ready_check host) (λ h. env.kube.ready_check h host)
      pure true)
    else rest

-- The outer loop
unfoldable pub scan_machines : Env → List (Machine × HcloudMachine) → Exec ClusterScope Bool
unfolding scan_addresses
scan_machines env [] = pure false
scan_machines env ((m, hm) ∷ machines) =
    let rest = scan_machines env machines in
    if not m.is_control_plane || not m.infrastructure_ready
    then rest
    else (do found ← scan_addresses env hm.status.addresses; if found then pure true else rest)

-- `applyManifests`, of the expected hash. Without a client config no error has been collected.
unfoldable pub apply_manifests : Env → Text → Exec ClusterScope (Unit {0})
unfolding list_machines scan_machines
apply_manifests env hash = do
  machines ← wrapping (text "failed to list machines for HcloudCluster %s/%s") (list_machines env)
  found ← scan_machines env machines
  if found
      then (do
        wrapping (text "error applying manifests to first API server")
            (call Call.apply_manifests (λ h. env.kube.apply_manifests h))
        update_hcloud_cluster λ c. record c {
          status = record (c.status) {
            manifests = some (record { initialized = some true; applied_hash = some hash });
          };
        })
      else fail no_ready_api_server

-- The tests on the status of the manifests
unfoldable pub needs_apply : Text → Option HcloudClusterStatusManifests → Bool
needs_apply hash none = true
needs_apply hash (some m) = elim (m.initialized) [
  | none ↦ true
  | some initialized ↦
      not initialized
      || elim (m.applied_hash) [ none ↦ true | some applied ↦ not (str_eq hash applied) ]
]

-- `reconcileManifests`; the parameters of the manifests read the cluster's endpoint
unfoldable pub reconcile_manifests : Env → Exec ClusterScope (Unit {0})
unfolding needs_apply apply_manifests
reconcile_manifests env = do
  endpoint ← gets (λ s. s.hcloud_cluster.spec.control_plane_endpoint)
  deref endpoint
  hash ← call Call.manifests_hash (λ h. env.kube.manifests_hash h)
  manifests ← gets (λ s. s.hcloud_cluster.status.manifests)
  if needs_apply hash manifests
      then (do apply_manifests env hash; eventf event_normal (text "ManifestsApplied"))
      else pure tt
