-- ===== src/LoadBalancer/Creation.antt =====
-- The services of a new load balancer.
use cluster_api_provider_hcl.Base.{
  text, false, ℕ, List, [], ◌∷◌, ◌≡◌, ◌≢◌, refl, sym, ap, ◌∙◌, arith,
}
use cluster_api_provider_hcl.Exec.{Error, continue, Result, ok, err, panic, Reply, success, refusal}
use cluster_api_provider_hcl.Exec.Ensures.{bind-ok}
use cluster_api_provider_hcl.Api.{LoadBalancerServiceSpec, HcloudLoadBalancerSpec}
use cluster_api_provider_hcl.Hcloud.{
  Call, History, LoadBalancer, LoadBalancerService, LoadBalancerCreateOpts, Env,
}
use cluster_api_provider_hcl.Scope.{ClusterScope, event_normal}
use cluster_api_provider_hcl.LoadBalancer.{create_load_balancer, add_services}
use cluster_api_provider_hcl.LoadBalancer.Create.{
  to_service, later_services, gather_opts, request_creation, create_with,
}

-- A service of the spec as it is sent to the cloud.
abbrev pub sent : LoadBalancerServiceSpec → LoadBalancerService
sent spec = record {
  protocol = spec.protocol;
  listen_port = spec.listen_port;
  destination_port = spec.destination_port;
  proxyprotocol = false;
}

abbrev pub addition : ℕ → LoadBalancerServiceSpec → Call
addition lb spec = Call.add_service_to_load_balancer lb (sent spec)

-- The requests of the loop, newest first.
abbrev pub additions : ℕ → List LoadBalancerServiceSpec → History → History
additions lb [] t = t
additions lb (spec ∷ specs) t = additions lb specs (addition lb spec ∷ t)

module _ (env : Env) (lb : ℕ) (spec : LoadBalancerServiceSpec)
    (specs : List LoadBalancerServiceSpec) (s : ClusterScope) where
  add_services_step :
      env.hcloud.add_service_to_load_balancer s.trace lb (sent spec) ≡ success tt
      → add_services env lb (spec ∷ specs) s
        ≡ add_services env lb specs (record s { trace = addition lb spec ∷ s.trace })
  unfolding add_services to_service
  add_services_step e = rw e

  add_services_refused :
      (x : Error)
      → env.hcloud.add_service_to_load_balancer s.trace lb (sent spec) ≡ refusal x
      → (add_services env lb (spec ∷ specs) s).0 ≢ ok tt
  unfolding add_services to_service
  add_services_refused x e h = ground arith

add_services_ok :
    (env : Env) (lb : ℕ) (specs : List LoadBalancerServiceSpec) (s : ClusterScope)
    → (add_services env lb specs s).0 ≡ ok tt
    → (add_services env lb specs s).1 ≡ record s { trace = additions lb specs s.trace }
add_services_ok env lb [] s o = unfold add_services in refl
add_services_ok env lb (spec ∷ specs) s o =
    go (env.hcloud.add_service_to_load_balancer s.trace lb (sent spec)) refl
      (add_services_ok env lb specs (record s { trace = addition lb spec ∷ s.trace }))
  where
    next : ClusterScope
    next = record s { trace = addition lb spec ∷ s.trace }

    go :
        (r : Reply (Unit {0}))
        → env.hcloud.add_service_to_load_balancer s.trace lb (sent spec) ≡ r
        → ((add_services env lb specs next).0 ≡ ok tt
            → (add_services env lb specs next).1
              ≡ record s { trace = additions lb specs next.trace })
        → (add_services env lb (spec ∷ specs) s).1
          ≡ record s { trace = additions lb (spec ∷ specs) s.trace }
    go (success u) e ih =
        let step = add_services_step env lb spec specs s e in rw step (ih (rw step at o))
    go (refusal x) e ih = absurd (add_services_refused env lb spec specs s x e o)

-- What `createLoadBalancer` has done when it reports success.
abbrev pub Created :
    Env
    → LoadBalancerCreateOpts
    → List LoadBalancerServiceSpec
    → ClusterScope
    → LoadBalancer
    → ClusterScope
    → Type 0
Created env opts later s1 lb s' =
    (env.hcloud.create_load_balancer s1.trace opts ≡ success lb)
    × (s'.hcloud_cluster ≡ s1.hcloud_cluster)
    × (s'.trace
        ≡ Call.event event_normal (text "CreateLoadBalancer")
          ∷ additions lb.id later (Call.create_load_balancer opts ∷ s1.trace))

-- The services that are added one by one.
abbrev rest_of : ClusterScope → List LoadBalancerServiceSpec
rest_of s = later_services s.hcloud_cluster.spec.control_plane_load_balancer.services

refused_creation :
    (env : Env) (opts : LoadBalancerCreateOpts) (s : ClusterScope) (x : Error) (lb : LoadBalancer)
    → env.hcloud.create_load_balancer s.trace opts ≡ refusal x
    → (create_with env opts s).0 ≢ ok lb
unfolding create_with
refused_creation env opts s x lb e h = ground arith

-- The scope after the request for a load balancer.
abbrev requested : LoadBalancerCreateOpts → ClusterScope → ClusterScope
requested opts s = record s { trace = Call.create_load_balancer opts ∷ s.trace }

abbrev finished :
    Result (Unit {0}) × ClusterScope → LoadBalancer → Result LoadBalancer × ClusterScope
finished r lb =
    continue r.0
      (λ _ s.
        (ok lb, record s { trace = Call.event event_normal (text "CreateLoadBalancer") ∷ s.trace }))
      r.1

accepted_creation :
    (env : Env) (opts : LoadBalancerCreateOpts) (s : ClusterScope) (lb : LoadBalancer)
    → env.hcloud.create_load_balancer s.trace opts ≡ success lb
    → create_with env opts s
      ≡ finished
          (add_services env lb.id
            (later_services s.hcloud_cluster.spec.control_plane_load_balancer.services)
            (requested opts s))
          lb
unfolding create_with request_creation
accepted_creation env opts s lb e = rw (e, request_creation)

finished_ok :
    (r : Result (Unit {0}) × ClusterScope) (lb lb' : LoadBalancer)
    → (finished r lb').0 ≡ ok lb
    → (r.0 ≡ ok tt) × (lb' ≡ lb)
finished_ok (ok u, s) lb lb' h = (refl, cc)
finished_ok (err e, s) lb lb' h = cc
finished_ok (panic, s) lb lb' h = cc

created :
    (env : Env) (opts : LoadBalancerCreateOpts) (s : ClusterScope) (lb : LoadBalancer)
    → env.hcloud.create_load_balancer s.trace opts ≡ success lb
    → (create_with env opts s).0 ≡ ok lb
    → Created env opts (rest_of s) s lb (create_with env opts s).1
created env opts s lb e h =
    let services = later_services s.hcloud_cluster.spec.control_plane_load_balancer.services in
    let run = accepted_creation env opts s lb e in
    let done =
      finished_ok (add_services env lb.id services (requested opts s)) lb lb
        (sym (ap (λ (x : Result LoadBalancer × ClusterScope). x.0) run) ∙ h) in
    let added = add_services_ok env lb.id services (requested opts s) done.0 in
    rw run (
      rw done.0 (
        e,
        ap (λ (t : ClusterScope). t.hcloud_cluster) added,
        ap (λ (t : ClusterScope). Call.event event_normal (text "CreateLoadBalancer") ∷ t.trace)
            added,
      ))

returned :
    (env : Env) (opts : LoadBalancerCreateOpts) (s : ClusterScope) (lb lb' : LoadBalancer)
    → env.hcloud.create_load_balancer s.trace opts ≡ success lb'
    → (create_with env opts s).0 ≡ ok lb
    → lb' ≡ lb
returned env opts s lb lb' e h =
    (finished_ok
      (add_services env lb'.id
        (later_services s.hcloud_cluster.spec.control_plane_load_balancer.services)
        (requested opts s))
      lb lb'
      (sym (
          ap (λ (x : Result LoadBalancer × ClusterScope). x.0) (accepted_creation env opts s lb' e))
        ∙ h)).1

gathered :
    (env : Env) (spec : HcloudLoadBalancerSpec) (s s1 : ClusterScope)
    (opts : LoadBalancerCreateOpts)
    → gather_opts env spec s ≡ (ok opts, s1)
    → create_load_balancer env spec s ≡ create_with env opts s1
unfolding create_load_balancer
gathered env spec s s1 opts g = rw g

-- Once the options are gathered.
with_options :
    (env : Env) (spec : HcloudLoadBalancerSpec) (s s1 : ClusterScope) (lb : LoadBalancer)
    (opts : LoadBalancerCreateOpts)
    → gather_opts env spec s ≡ (ok opts, s1)
    → (create_load_balancer env spec s).0 ≡ ok lb
    → Created env opts (rest_of s1) s1 lb (create_load_balancer env spec s).1
with_options env spec s s1 lb opts g h =
    let run = gathered env spec s s1 opts g in
    let same : (create_with env opts s1).0 ≡ ok lb =
      sym (ap (λ (x : Result LoadBalancer × ClusterScope). x.0) run) ∙ h in
    rw run (go (env.hcloud.create_load_balancer s1.trace opts) refl same)
  where
    go :
        (r : Reply LoadBalancer)
        → env.hcloud.create_load_balancer s1.trace opts ≡ r
        → (create_with env opts s1).0 ≡ ok lb
        → Created env opts (rest_of s1) s1 lb (create_with env opts s1).1
    go (refusal x) e o = absurd (refused_creation env opts s1 x lb e o)
    go (success lb') e o =
        let same = returned env opts s1 lb lb' e o in created env opts s1 lb (rw same at e) o

-- What the options say of the services, and that the cluster is left alone.
gather_opts-services :
    (env : Env) (spec : HcloudLoadBalancerSpec) (s : ClusterScope) (opts : LoadBalancerCreateOpts)
    → (gather_opts env spec s).0 ≡ ok opts
    → ((gather_opts env spec s).1.hcloud_cluster ≡ s.hcloud_cluster)
      × ((first : LoadBalancerServiceSpec) × (later : List LoadBalancerServiceSpec)
          × (s.hcloud_cluster.spec.control_plane_load_balancer.services ≡ first ∷ later)
          × (opts.services ≡ sent first ∷ []))
unfolding gather_opts to_service
gather_opts-services env spec s opts h = ground arith

-- When `createLoadBalancer` reports success, the spec of the cluster has a first service; the cloud
-- accepted one creation request, which carries that service alone, and then each later service was
-- added to the new load balancer, in the order of the spec, and nothing else was requested after the
-- options stood.
pub create_load_balancer_ok :
    (env : Env) (spec : HcloudLoadBalancerSpec) (s : ClusterScope) (lb : LoadBalancer)
    → (create_load_balancer env spec s).0 ≡ ok lb
    → (opts : LoadBalancerCreateOpts) × (first : LoadBalancerServiceSpec) × (later : List
        LoadBalancerServiceSpec)
      × (s.hcloud_cluster.spec.control_plane_load_balancer.services ≡ first ∷ later)
      × (opts.services ≡ sent first ∷ [])
      × Created env opts later (gather_opts env spec s).1 lb (create_load_balancer env spec s).1
create_load_balancer_ok env spec s lb h =
    let (opts, q, k, e) =
      bind-ok (gather_opts env spec) (create_with env) s lb (unfold create_load_balancer in h) in
    let s1 = (gather_opts env spec s).1 in
    let (same, of_services) = gather_opts-services env spec s opts q in
    let (first, later, services, o) = of_services in
    let rest : rest_of s1 ≡ later = unfold later_services in rw (same, services) refl in
    (
      opts,
      first,
      later,
      services,
      o,
      rw (← rest) (
          with_options env spec s s1 lb opts (ap (λ (r : Result LoadBalancerCreateOpts). (r, s1)) q)
            h),
    )
