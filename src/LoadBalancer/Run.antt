-- ===== src/LoadBalancer/Run.antt =====
-- What the load balancer service asks of the cloud.
use cluster_api_provider_hcl.Base.{Text, text, List, [], ◌∷◌, ◌≡◌, ◌⊎◌, inl, inr, refl, arith}
use cluster_api_provider_hcl.Exec.{ok, Reply, success, refusal}
use cluster_api_provider_hcl.Api.Tags.{
  resource_lifecycle_owned, cluster_tag_key, labels_to_label_selector,
}
use cluster_api_provider_hcl.Hcloud.{Call, LoadBalancer, Env}
use cluster_api_provider_hcl.Scope.{ClusterScope, event_normal}
use cluster_api_provider_hcl.LoadBalancer.{delete, delete_found}

-- The selector of the cluster's load balancer.
abbrev pub selector : ClusterScope → Text
selector s =
    labels_to_label_selector
      ((cluster_tag_key s.hcloud_cluster.name, resource_lifecycle_owned) ∷ [])

abbrev pub listing : ClusterScope → Call
listing s = Call.list_load_balancers (selector s)

abbrev pub listed : Env → ClusterScope → Reply (List LoadBalancer)
listed env s = env.hcloud.list_load_balancers s.trace (selector s)

-- The scope after the search.
abbrev pub searched : ClusterScope → ClusterScope
searched s = record s { trace = listing s ∷ s.trace }

-- What `Delete` did when it reports success.
abbrev pub DeleteDone : Env → ClusterScope → ClusterScope → Type 0
DeleteDone env s s' =
    ((listed env s ≡ success [])
      × (s'.trace ≡ Call.event event_normal (text "UnknownLoadBalancer") ∷ listing s ∷ s.trace))
    ⊎ ((lb : LoadBalancer) × (listed env s ≡ success (lb ∷ []))
        × (env.hcloud.delete_load_balancer (listing s ∷ s.trace) lb.id ≡ success tt)
        × (s'.trace
            ≡ Call.event event_normal (text "DeleteLoadBalancer")
              ∷ Call.delete_load_balancer lb.id
              ∷ listing s
              ∷ s.trace))

delete_single :
    (env : Env) (s : ClusterScope) (lb : LoadBalancer)
    → listed env s ≡ success (lb ∷ [])
    → (delete env s).0 ≡ ok tt
    → DeleteDone env s (delete env s).1
unfolding delete
delete_single env s lb h o = go (env.hcloud.delete_load_balancer (listing s ∷ s.trace) lb.id) refl
  where
    go :
        (r : Reply (Unit {0}))
        → env.hcloud.delete_load_balancer (listing s ∷ s.trace) lb.id ≡ r
        → DeleteDone env s (delete env s).1
    go (success u) e = inr (lb, h, e, rw h (rw (e, delete_found)))
    go (refusal x) e = ground arith

-- When `Delete` reports success, the cloud listed no load balancer of the cluster, or exactly one,
-- whose deletion the cloud accepted.
pub load_balancer_deleted :
    (env : Env) (s : ClusterScope) → (delete env s).0 ≡ ok tt → DeleteDone env s (delete env s).1
load_balancer_deleted env s o = go (listed env s) refl
  where
    go : (r : Reply (List LoadBalancer)) → listed env s ≡ r → DeleteDone env s (delete env s).1
    go (refusal e) h = unfold delete in ground arith
    go (success []) h = inl (h, unfold delete in rw h)
    go (success (lb ∷ [])) h = delete_single env s lb h o
    go (success (lb ∷ lb' ∷ lbs)) h = unfold delete in ground arith
