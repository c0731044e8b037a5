-- ===== src/Controllers/Tests.antt =====
-- The controllers at concrete inputs.
use cluster_api_provider_hcl.Volume.{name}
use cluster_api_provider_hcl.Volume.Gone.{Reclaimed}
use cluster_api_provider_hcl.Controllers.Volume
use cluster_api_provider_hcl.Controllers.Volume.Release.{volume_released}
use cluster_api_provider_hcl.Api.{volume_finalizer}
use cluster_api_provider_hcl.Fixtures.{the_volume, volume_scope}
use cluster_api_provider_hcl.Base.{
  text, true, false, none, some, [], ◌∷◌, mem_text, ◌≡◌, ◌≢◌, ◌⊎◌, refl, str_eq,
}
use cluster_api_provider_hcl.Exec.{ok, success}
use cluster_api_provider_hcl.Api.{machine_finalizer, off}
use cluster_api_provider_hcl.Hcloud.{Env, Machine}
use cluster_api_provider_hcl.Network.{api_to_status}
use cluster_api_provider_hcl.Api.Tags.{cluster_tag_key}
use cluster_api_provider_hcl.Scope.{ClusterScope}
use cluster_api_provider_hcl.Server.Removal.{Gone}
use cluster_api_provider_hcl.Controllers.Machine
use cluster_api_provider_hcl.Controllers.Machine.Release.{machine_released}
use cluster_api_provider_hcl.Controllers.Cluster
use cluster_api_provider_hcl.Controllers.Cluster.{
  Reconciler, reconcile_target_cluster_manager, set_endpoint, reconcile_manifests, needs_apply,
  scan_addresses,
}
use cluster_api_provider_hcl.Controllers.Cluster.Release.{Released, cluster-Released}
use cluster_api_provider_hcl.Controllers.Cluster.Endpoint.{EndpointSet, set_endpoint_ready}
use cluster_api_provider_hcl.Controllers.Cluster.Applied.{reconcile_manifests_applied}
use cluster_api_provider_hcl.Fixtures.{
  the_server, the_load_balancer, the_network, empty_cloud, env_of, kube, service, machine_scope,
  demo_scope, demo_cluster, status_of_node,
}

abbrev full_cloud : Env
full_cloud = env_of (record empty_cloud {
  servers = the_server off ∷ [];
  load_balancers = the_load_balancer ∷ [];
  networks = the_network ∷ [];
})

test_machine_delete : (Machine.reconcile_delete full_cloud machine_scope).0 ≡ ok none
unfolding Machine.reconcile_delete
test_machine_delete = refl

machine_released_example :
    (((Machine.reconcile_delete full_cloud machine_scope).0 ≡ ok none)
      × (mem_text machine_finalizer
            (Machine.reconcile_delete full_cloud machine_scope).1.hcloud_machine.finalizers
          ≡ false)
      × Gone full_cloud machine_scope
          (Machine.reconcile_delete full_cloud machine_scope).1.cluster_scope.trace)
    ⊎ (((Machine.reconcile_delete full_cloud machine_scope).0 ≢ ok none)
        × ((Machine.reconcile_delete full_cloud machine_scope).1.hcloud_machine.finalizers
            ≡ machine_scope.hcloud_machine.finalizers))
machine_released_example = machine_released full_cloud machine_scope

abbrev reconciler : Reconciler
reconciler = record { scope = demo_scope; has_manager = true }

test_cluster_delete : (Cluster.reconcile_delete full_cloud reconciler).0 ≡ ok none
unfolding Cluster.reconcile_delete api_to_status str_eq cluster_tag_key text
test_cluster_delete = refl

cluster-Released_example :
    (((Cluster.reconcile_delete full_cloud reconciler).0 ≡ ok none)
      × Released full_cloud
          (reconcile_target_cluster_manager full_cloud reconciler).1.scope
          (Cluster.reconcile_delete full_cloud reconciler).1.scope)
    ⊎ (((Cluster.reconcile_delete full_cloud reconciler).0 ≢ ok none)
        × ((Cluster.reconcile_delete full_cloud reconciler).1.scope.hcloud_cluster.finalizers
            ≡ reconciler.scope.hcloud_cluster.finalizers))
cluster-Released_example = cluster-Released full_cloud reconciler

set_endpoint_ready_example :
    ((set_endpoint demo_scope).0 ≡ ok tt)
    × EndpointSet (text "10.0.0.1") 6443 none (set_endpoint demo_scope).1.hcloud_cluster
set_endpoint_ready_example =
    set_endpoint_ready demo_scope (service 6443) (service 443 ∷ []) (λ e. unfold text in cc e)
      (λ e. unfold text in cc e) refl

-- A guest cluster whose one control plane has an address.
abbrev control_plane : Machine
control_plane = record (machine_scope.machine) {
  is_control_plane = true;
  infrastructure_ref_group_kind = text "HcloudMachine.cluster-api-provider-hcloud.capihc.com";
}

abbrev running_cluster : Env
running_cluster = record (env_of empty_cloud) {
  kube = record kube {
    list_machines = λ h namespace. success (control_plane ∷ []);
    list_hcloud_machines = λ h namespace.
        success (record (machine_scope.hcloud_machine) { status = status_of_node } ∷ []);
  };
}

abbrev reachable : ClusterScope
reachable = record demo_scope {
  hcloud_cluster = record demo_cluster {
    spec = record (demo_cluster.spec) {
      control_plane_endpoint = some (record { host = text "10.0.0.1"; port = 6443 });
    };
  };
}

test_manifests : (reconcile_manifests running_cluster reachable).0 ≡ ok tt
unfolding reconcile_manifests str_eq text
test_manifests = refl

reconcile_manifests_applied_example :
    needs_apply
      (text "hash")
      (reconcile_manifests running_cluster reachable).1.hcloud_cluster.status.manifests
    ≡ false
reconcile_manifests_applied_example =
    reconcile_manifests_applied running_cluster reachable (text "hash") refl test_manifests

-- A cloud with the volume `demo-data`.
abbrev with_volume : Env
with_volume = env_of (record empty_cloud { volumes = the_volume ∷ [] })

test_volume_delete : (Volume.reconcile_delete with_volume volume_scope).0 ≡ ok none
unfolding Volume.reconcile_delete name text str_eq
test_volume_delete = refl

volume_released_example :
    (((Volume.reconcile_delete with_volume volume_scope).0 ≡ ok none)
      × (mem_text volume_finalizer
            (Volume.reconcile_delete with_volume volume_scope).1.hcloud_volume.finalizers
          ≡ false)
      × Reclaimed with_volume volume_scope)
    ⊎ (((Volume.reconcile_delete with_volume volume_scope).0 ≢ ok none)
        × ((Volume.reconcile_delete with_volume volume_scope).1.hcloud_volume.finalizers
            ≡ volume_scope.hcloud_volume.finalizers))
volume_released_example = volume_released with_volume volume_scope
