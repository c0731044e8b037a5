-- ===== src/LoadBalancer/Find.antt =====
-- `FindLoadBalancer` and `apiToStatus` of loadbalancer.go.
use cluster_api_provider_hcl.Base.{
  Text, text, ℕ, Bool, Option, none, some, List, [], ◌∷◌, if◌then◌else◌, str_eq,
}
use cluster_api_provider_hcl.Exec.{
  failure, Result, ok, err, panic, Exec, gets, of_result, wrapping, ◌>>=◌,
}
use cluster_api_provider_hcl.Api.{
  HcloudLoadBalancerStatus, algorithm_round_robin, algorithm_least_connections,
}
use cluster_api_provider_hcl.Api.Tags.{
  resource_lifecycle_owned, cluster_tag_key, labels_to_label_selector,
}
use cluster_api_provider_hcl.Hcloud.{Call, Ip, LoadBalancer, NetLib, Env}
use cluster_api_provider_hcl.Scope.{ClusterScope, call}

-- The two tests of `FindLoadBalancer` on the answer.
single : List LoadBalancer → Result (Option LoadBalancer)
single [] = ok none
single (lb ∷ []) = ok (some lb)
single (lb ∷ lb' ∷ lbs) = err (failure (text "Found %v loadbalancers in Hcloud"))

-- `FindLoadBalancer`
unfoldable pub find_load_balancer : Env → Exec ClusterScope (Option LoadBalancer)
unfolding single
find_load_balancer env = do
  selector ← gets λ s.
      labels_to_label_selector
        ((cluster_tag_key s.hcloud_cluster.name, resource_lifecycle_owned) ∷ [])
  load_balancers ←
      wrapping (text "failed to list load balancers")
        (call (Call.list_load_balancers selector) (λ h. env.hcloud.list_load_balancers h selector))
  of_result (single load_balancers)

-- `net.IP.String`
unfoldable pub format_ip : NetLib → Ip → Text
format_ip net [] = text "<nil>"
format_ip net (b ∷ ip) = net.format_ip (b ∷ ip)

-- The loop over the targets; a target that names no server is a nil dereference.
unfoldable pub target_ids : List (Option ℕ) → Result (List ℕ)
target_ids [] = ok []
target_ids (none ∷ targets) = panic
target_ids (some id ∷ targets) = elim (target_ids targets) [
  | ok ids ↦ ok (id ∷ ids)
  | err e ↦ err e
  | panic ↦ panic
]

first_ip : NetLib → List Ip → Text
unfolding format_ip
first_ip net [] = []
first_ip net (ip ∷ ips) = format_ip net ip

-- `apiToStatus`; the flag says whether the cluster's status has a network.
unfoldable pub api_to_status : NetLib → Bool → LoadBalancer → Result HcloudLoadBalancerStatus
unfolding format_ip target_ids first_ip
api_to_status net has_network lb =
    let status = λ (ids : List ℕ). ok (record {
      id = lb.id;
      name = lb.name;
      type = lb.type_name;
      ipv4 = format_ip net lb.public_ipv4;
      ipv6 = format_ip net lb.public_ipv6;
      internal_ip = if has_network then first_ip net lb.private_net else [];
      labels = lb.labels;
      algorithm = lb.algorithm;
      targets = ids;
    }) in
    if str_eq lb.algorithm algorithm_round_robin
    then elim (target_ids lb.targets) [ ok ids ↦ status ids | err e ↦ err e | panic ↦ panic ]
    else if str_eq lb.algorithm algorithm_least_connections
    then elim (target_ids lb.targets) [ ok ids ↦ status ids | err e ↦ err e | panic ↦ panic ]
    else err (failure (text "Unknown load balancer algorithm type: %s"))
