-- ===== src/LoadBalancer/Tests.antt =====
-- The load balancer service at concrete inputs.
use cluster_api_provider_hcl.Base.{text, none, List, [], ◌∷◌, ◌≡◌, refl, str_eq}
use cluster_api_provider_hcl.Exec.{ok}
use cluster_api_provider_hcl.Api.{LoadBalancerServiceSpec, algorithm_round_robin}
use cluster_api_provider_hcl.Api.Tags.{cluster_tag_key, resource_lifecycle_owned}
use cluster_api_provider_hcl.Hcloud.{Call, LoadBalancerCreateOpts, Env}
use cluster_api_provider_hcl.Scope.{ClusterScope}
use cluster_api_provider_hcl.LoadBalancer.{delete, find_load_balancer, create_load_balancer}
use cluster_api_provider_hcl.LoadBalancer.Create.{
  gather_opts, create_with, to_service, algorithm_type,
}
use cluster_api_provider_hcl.LoadBalancer.Run.{DeleteDone, load_balancer_deleted}
use cluster_api_provider_hcl.LoadBalancer.Creation.{sent, Created, create_load_balancer_ok}
use cluster_api_provider_hcl.Fixtures.{
  the_load_balancer, empty_cloud, env_of, demo_scope, service, load_balancer_spec,
}

abbrev with_load_balancer : Env
with_load_balancer = env_of (record empty_cloud { load_balancers = the_load_balancer ∷ [] })

test_delete : (delete with_load_balancer demo_scope).0 ≡ ok tt
unfolding delete find_load_balancer
test_delete = refl

load_balancer_deleted_example :
    DeleteDone with_load_balancer demo_scope (delete with_load_balancer demo_scope).1
load_balancer_deleted_example = load_balancer_deleted with_load_balancer demo_scope test_delete

abbrev opts : LoadBalancerCreateOpts
opts = record {
  load_balancer_type = text "lb11";
  name = text "demo-kube-apiserver-";
  algorithm = algorithm_round_robin;
  location = text "fsn1";
  network = none;
  labels = (cluster_tag_key (text "demo"), resource_lifecycle_owned) ∷ [];
  services = to_service (service 6443) ∷ [];
}

abbrev gathered_scope : ClusterScope
gathered_scope = record demo_scope {
  trace = Call.get_load_balancer_type_by_name (text "lb11") ∷ [];
}

test_gather :
    gather_opts (env_of empty_cloud) load_balancer_spec demo_scope ≡ (ok opts, gathered_scope)
unfolding gather_opts algorithm_type text str_eq
test_gather = refl

test_create :
    (create_load_balancer (env_of empty_cloud) load_balancer_spec demo_scope).0
    ≡ ok the_load_balancer
unfolding create_load_balancer gather_opts create_with algorithm_type text str_eq
test_create = refl

create_load_balancer_ok_example :
    (o : LoadBalancerCreateOpts) × (first : LoadBalancerServiceSpec) × (later : List
      LoadBalancerServiceSpec)
    × (demo_scope.hcloud_cluster.spec.control_plane_load_balancer.services ≡ first ∷ later)
    × (o.services ≡ sent first ∷ [])
    × Created
        (env_of empty_cloud)
        o
        later
        (gather_opts (env_of empty_cloud) load_balancer_spec demo_scope).1
        the_load_balancer
        (create_load_balancer (env_of empty_cloud) load_balancer_spec demo_scope).1
create_load_balancer_ok_example =
    create_load_balancer_ok (env_of empty_cloud) load_balancer_spec demo_scope the_load_balancer
      test_create
