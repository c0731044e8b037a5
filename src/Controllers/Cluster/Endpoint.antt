-- ===== src/Controllers/Cluster/Endpoint.antt =====
-- The endpoint that the cluster controller derives from the load balancer.
use cluster_api_provider_hcl.Base.{
  Text, text, ℕ, ◌%◌, ◌^◌, true, false, Option, none, some, List, [], ◌∷◌, str_eq, str_eq_iff, ◌==◌,
  ◌≡◌, ◌≢◌, ◌⊎◌, inl, inr, refl, arith, Bool-cases,
}
use cluster_api_provider_hcl.Exec.{ok}
use cluster_api_provider_hcl.Api.{ApiEndpoint, HcloudCluster, LoadBalancerServiceSpec}
use cluster_api_provider_hcl.Scope.{ClusterScope}
use cluster_api_provider_hcl.Controllers.Cluster.{default_endpoint, set_endpoint}

-- The host of the endpoint: the given one, unless there is none or it is empty.
abbrev pub HasHost : Text → Option ApiEndpoint → ApiEndpoint → Type 0
HasHost ipv4 none e = e.host ≡ ipv4
HasHost ipv4 (some g) e = ((g.host ≢ []) × (e.host ≡ g.host)) ⊎ ((g.host ≡ []) × (e.host ≡ ipv4))

-- The port of the endpoint: the given one, unless there is none or it is zero.
abbrev pub HasPort : ℕ → Option ApiEndpoint → ApiEndpoint → Type 0
HasPort port none e = e.port ≡ port
HasPort port (some g) e = ((g.port ≢ 0) × (e.port ≡ g.port)) ⊎ ((g.port ≡ 0) × (e.port ≡ port))

-- A cluster whose endpoint can be used.
abbrev pub EndpointSet : Text → ℕ → Option ApiEndpoint → HcloudCluster → Type 0
EndpointSet ipv4 port given c =
    (c.status.ready ≡ true)
    × ((e : ApiEndpoint) × (c.spec.control_plane_endpoint ≡ some e)
        × HasHost ipv4 given e
        × HasPort port given e
        × (e.host ≢ []))

default_endpoint-HasHost :
    (ipv4 : Text) (port : ℕ) (given : Option ApiEndpoint)
    → ipv4 ≢ []
    → HasHost ipv4 given (default_endpoint ipv4 port given)
      × ((default_endpoint ipv4 port given).host ≢ [])
unfolding default_endpoint
default_endpoint-HasHost ipv4 port none n = (refl, n)
default_endpoint-HasHost ipv4 port (some g) n = elim (Bool-cases (str_eq g.host [])) [
  | inl e ↦ rw e (inr ((str_eq_iff g.host []).0 e, refl), n)
  | inr e ↦
      let filled : g.host ≢ [] = λ q. cc ((str_eq_iff g.host []).1 q) in
      rw e (inl (filled, refl), filled)
]

default_endpoint-HasPort :
    (ipv4 : Text) (port : ℕ) (given : Option ApiEndpoint)
    → HasPort port given (default_endpoint ipv4 port given)
unfolding default_endpoint
default_endpoint-HasPort ipv4 port none = refl
default_endpoint-HasPort ipv4 port (some g) = elim (Bool-cases (g.port == 0)) [
  | inl e ↦ inr (ground arith, ground arith)
  | inr e ↦ inl ((λ q. ground arith), ground arith)
]

-- For a load balancer with a public address and a first service, the controller marks the cluster
-- ready with an endpoint. Its host is the given one, or that address if none is given or the given
-- one is empty, and is not empty; its port is the given one, or the destination port of the first
-- service, in 32 bits, if none is given or the given one is zero.
pub set_endpoint_ready :
    (s : ClusterScope) (service : LoadBalancerServiceSpec) (rest : List LoadBalancerServiceSpec)
    → let ipv4 = s.hcloud_cluster.status.control_plane_load_balancer.ipv4 in
      ipv4 ≢ text "<nil>"
      → ipv4 ≢ []
      → s.hcloud_cluster.spec.control_plane_load_balancer.services ≡ service ∷ rest
      → ((set_endpoint s).0 ≡ ok tt)
        × EndpointSet ipv4
            (service.destination_port % 2 ^ 32)
            s.hcloud_cluster.spec.control_plane_endpoint
            (set_endpoint s).1.hcloud_cluster
set_endpoint_ready s service rest nil empty h =
    let ipv4 = s.hcloud_cluster.status.control_plane_load_balancer.ipv4 in
    let given = s.hcloud_cluster.spec.control_plane_endpoint in
    let port = service.destination_port % 2 ^ 32 in
    let other : str_eq ipv4 (text "<nil>") ≡ false =
      ground (arith, str_eq_iff ipv4 (text "<nil>")) in
    let (host, filled) = default_endpoint-HasHost ipv4 port given empty in
    unfold set_endpoint in
    rw other (
      rw h (
        refl,
        (
          refl,
          (
            default_endpoint ipv4 port given,
            refl,
            host,
            default_endpoint-HasPort ipv4 port given,
            filled,
          ),
        ),
      ))
