-- ===== src/LoadBalancer/Create.antt =====
-- `createLoadBalancer` of loadbalancer.go.
use cluster_api_provider_hcl.Base.{
  Text, text, ℕ, false, Option, none, some, List, [], ◌∷◌, ◌++◌, if◌then◌else◌, str_eq,
}
use cluster_api_provider_hcl.Exec.{
  failure, wrapped, Result, ok, err, panic, Exec, pure, fail, gets, deref, of_result, wrapping,
  ◌>>=◌, ◌>>◌,
}
use cluster_api_provider_hcl.Api.{
  LoadBalancerServiceSpec, HcloudLoadBalancerSpec, HcloudCluster, algorithm_round_robin,
  algorithm_least_connections,
}
use cluster_api_provider_hcl.Api.Tags.{resource_lifecycle_owned, cluster_tag_key}
use cluster_api_provider_hcl.Hcloud.{
  Call, LoadBalancer, LoadBalancerService, LoadBalancerCreateOpts, Env,
}
use cluster_api_provider_hcl.Scope.{ClusterScope, call, eventf, event_normal, event_warning}
use cluster_api_provider_hcl.LoadBalancer.Attach.{find_network}

-- The algorithm of the spec in the terms of the API.
unfoldable pub algorithm_type : Text → Result Text
algorithm_type algorithm =
    if str_eq algorithm algorithm_round_robin
    then ok algorithm_round_robin
    else if str_eq algorithm algorithm_least_connections
    then ok algorithm_least_connections
    else err (failure (text "error invalid load balancer algorithm type: %s"))

-- A service of the spec in the terms of the API; `mybool` is never set.
unfoldable pub to_service : LoadBalancerServiceSpec → LoadBalancerService
to_service spec = record {
  protocol = spec.protocol;
  listen_port = spec.listen_port;
  destination_port = spec.destination_port;
  proxyprotocol = false;
}

head_location : List Text → Result Text
head_location [] = err (failure (text "no locations set on the cluster"))
head_location (l ∷ ls) = ok l

head_service : List LoadBalancerServiceSpec → Option LoadBalancerServiceSpec
head_service [] = none
head_service (s ∷ ss) = some s

-- `Services[1:]`
unfoldable pub later_services : List LoadBalancerServiceSpec → List LoadBalancerServiceSpec
later_services [] = []
later_services (s ∷ ss) = ss

-- `Status.Network`, found again in the cloud, if the cluster has one
optional_network : Env → Exec ClusterScope (Option ℕ)
unfolding find_network
optional_network env = do
  network ← gets (λ s. s.hcloud_cluster.status.network)
  elim network [ none ↦ pure none | some net ↦ do id ← find_network env net.id; pure (some id) ]

load_balancer_name : Env → HcloudCluster → Text
load_balancer_name env hc = elim (hc.spec.control_plane_load_balancer.name) [
  | none ↦ env.net.generate_name (hc.name ++ text "-kube-apiserver-")
  | some name ↦ name
]

-- The options of the request.
unfoldable pub gather_opts : Env → HcloudLoadBalancerSpec → Exec ClusterScope LoadBalancerCreateOpts
unfolding algorithm_type head_location head_service optional_network load_balancer_name to_service
gather_opts env spec = do
  algorithm ← of_result (algorithm_type spec.algorithm)
  hc ← gets (λ s. s.hcloud_cluster)
  load_balancer_type ← wrapping (text "failed to find load balancer type") (
      call (Call.get_load_balancer_type_by_name spec.type)
        (λ h. env.hcloud.get_load_balancer_type_by_name h spec.type))
  location ← of_result (head_location hc.status.locations)
  network ← optional_network env
  kube_api_spec ← deref (head_service hc.spec.control_plane_load_balancer.services)
  pure (record {
    load_balancer_type = load_balancer_type;
    name = load_balancer_name env hc;
    algorithm = algorithm;
    location = location;
    network = network;
    labels = (cluster_tag_key hc.name, resource_lifecycle_owned) ∷ [];
    services = to_service kube_api_spec ∷ [];
  })

-- `CreateLoadBalancer` and what follows an error
unfoldable pub request_creation : Env → LoadBalancerCreateOpts → Exec ClusterScope LoadBalancer
request_creation env opts s =
    let (r, s') =
      call (Call.create_load_balancer opts) (λ h. env.hcloud.create_load_balancer h opts) s in
    elim r [
      | ok lb ↦ (ok lb, s')
      | err e ↦
          (do
            eventf event_warning (text "FailedCreateLoadBalancer")
            fail (wrapped (text "error creating load balancer: %s") e))
            s'
      | panic ↦ (panic, s')
    ]

-- The loop that adds the later services one after another.
unfoldable pub add_services : Env → ℕ → List LoadBalancerServiceSpec → Exec ClusterScope (Unit {0})
unfolding to_service
add_services env lb [] = pure tt
add_services env lb (spec ∷ specs) = do
  wrapping (text "Error adding service to load balancer: %s") (
      call (Call.add_service_to_load_balancer lb (to_service spec))
        (λ h. env.hcloud.add_service_to_load_balancer h lb (to_service spec)))
  add_services env lb specs

-- `createLoadBalancer` once the options stand
unfoldable pub create_with : Env → LoadBalancerCreateOpts → Exec ClusterScope LoadBalancer
unfolding request_creation add_services later_services
create_with env opts = do
  lb ← request_creation env opts
  services ← gets (λ s. s.hcloud_cluster.spec.control_plane_load_balancer.services)
  add_services env lb.id (later_services services)
  eventf event_normal (text "CreateLoadBalancer")
  pure lb

-- `createLoadBalancer`
unfoldable pub create_load_balancer : Env → HcloudLoadBalancerSpec → Exec ClusterScope LoadBalancer
unfolding gather_opts create_with
create_load_balancer env spec = do opts ← gather_opts env spec; create_with env opts
