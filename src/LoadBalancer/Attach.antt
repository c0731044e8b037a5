-- ===== src/LoadBalancer/Attach.antt =====
-- `attachLoadBalancerToNetwork` of loadbalancer.go, and the search for the cluster's network.
use cluster_api_provider_hcl.Base.{
  text, ℕ, Bool, false, none, some, List, [], ◌∷◌, ◌||◌, ◌==◌, if◌then◌else◌,
}
use cluster_api_provider_hcl.Exec.{
  failure, wrapped, ok, err, panic, Exec, pure, fail, gets, wrapping, ◌>>=◌, ◌>>◌,
}
use cluster_api_provider_hcl.Hcloud.{Call, LoadBalancer, Network, Env}
use cluster_api_provider_hcl.Scope.{ClusterScope, call, eventf, event_warning}

-- The loop that looks for the network of an ID.
unfoldable pub has_network : ℕ → List Network → Bool
has_network id [] = false
has_network id (net ∷ nets) = (net.id == id) || has_network id nets

-- `ListNetworks` and the loop over its answer
unfoldable pub find_network : Env → ℕ → Exec ClusterScope ℕ
unfolding has_network
find_network env network_id = do
  networks ←
      wrapping (text "failed to list networks")
        (call (Call.list_networks []) (λ h. env.hcloud.list_networks h []))
  if has_network network_id networks
      then pure network_id
      else fail (failure (text "could not find network with ID %v"))

-- The request of `attachLoadBalancerToNetwork` and what follows its answer
attach : Env → ℕ → ℕ → Exec ClusterScope (Unit {0})
attach env lb network s =
    let (r, s') =
      call (Call.attach_load_balancer_to_network lb network)
        (λ h. env.hcloud.attach_load_balancer_to_network h lb network) s in
    elim r [
      | ok u ↦ (ok tt, s')
      | err e ↦
          (do
            eventf event_warning (text "FailedAttachLoadBalancer")
            fail (wrapped (text "failed to attach load balancer to network") e))
            s'
      | panic ↦ (panic, s')
    ]

-- `attachLoadBalancerToNetwork`
unfoldable pub attach_load_balancer_to_network : Env → LoadBalancer → Exec ClusterScope (Unit {0})
unfolding find_network attach
attach_load_balancer_to_network env lb = do
  network ← gets (λ s. s.hcloud_cluster.status.network)
  elim network [
    | none ↦ fail (failure (text "no network set on the cluster"))
    | some net ↦ do id ← find_network env net.id; attach env lb.id id
  ]
