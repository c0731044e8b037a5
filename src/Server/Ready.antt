-- ===== src/Server/Ready.antt =====
-- What holds of a machine once `Reconcile` of the server service has nothing left to do.
use cluster_api_provider_hcl.Base.{
  Text, text, ℕ, Bool, true, Option, none, some, List, [], ◌∷◌, ◌≡◌, refl, ◌∙◌, arith, Bool-cases,
  inl, inr,
}
use cluster_api_provider_hcl.Exec.{failure, ok, Exec, pure, gets, wrapping, ◌>>=◌, ◌>>◌}
use cluster_api_provider_hcl.Exec.Ensures.{
  bind-ok, wrapping-ok, Ensures, Ensures-fail, Ensures-other, Ensures-bind,
}
use cluster_api_provider_hcl.Api.{NodeAddress, running}
use cluster_api_provider_hcl.Hcloud.{Call, Server, Env}
use cluster_api_provider_hcl.Scope.{MachineScope, on_cluster, ask}
use cluster_api_provider_hcl.Server.{
  Requeue, is_external, is_running, set_ready, check_addresses, finish, with_image, reconcile,
  settle, attach_and_check, await, place, required_image, obtain, selector, find_server,
  store_status, client_config_with_api_endpoint, reconcile_load_balancer_attachment,
}
use cluster_api_provider_hcl.Server.Kubeadm.{UserData}
use cluster_api_provider_hcl.Server.Selector.{
  place-Keeps, required_image-Keeps, find_server-selector,
}
use cluster_api_provider_hcl.Server.Obtained.{Reported, obtain-Reported}

-- The machine is ready and names the server, which runs.
abbrev pub Ready : Env → Server → MachineScope → Type 0
Ready env server s =
    (s.hcloud_machine.status.ready ≡ true)
    × (server.status ≡ running)
    × (s.hcloud_machine.spec.provider_id ≡ some (env.net.provider_id server.id))

abbrev Readies : Env → Server → Exec MachineScope Requeue → Type 0
Readies env server m = Ensures none (Ready env server) m

module _ (env : Env) (server : Server) where
  set_ready_lem : server.status ≡ running → Readies env server (set_ready env server >> pure none)
  unfolding set_ready
  set_ready_lem r = record { at = λ s h. (refl, r, refl) }

  check_addresses_lem :
      (addresses : List NodeAddress)
      → server.status ≡ running
      → Readies env server (check_addresses env server addresses)
  unfolding check_addresses
  check_addresses_lem [] r = Ensures-fail (failure (text "Not usable Address found"))
  check_addresses_lem (a ∷ addresses) r = elim (Bool-cases (is_external a.type)) [
    | inl e ↦ rw e (
        Ensures-bind (on_cluster (client_config_with_api_endpoint env))
          (λ host.
            on_cluster (ask (Call.ready_check host) (λ h. env.kube.ready_check h host)) >>= λ v.
            set_ready env server >> pure none)
          λ host.
            Ensures-bind
              (on_cluster (ask (Call.ready_check host) (λ h. env.kube.ready_check h host)))
              (λ v. set_ready env server >> pure none) (λ v. set_ready_lem r))
    | inr e ↦ rw e (check_addresses_lem addresses r)
  ]

  attach_and_check_lem : server.status ≡ running → Readies env server (attach_and_check env server)
  unfolding attach_and_check
  attach_and_check_lem r = record {
    at = λ s h.
        (Ensures-bind
            (wrapping (text "failed to add server to load balancer")
              (on_cluster (reconcile_load_balancer_attachment env server)))
            (λ u. gets (λ s. s.hcloud_machine.status.addresses) >>= λ addresses.
              check_addresses env server addresses)
            λ u.
              Ensures-bind (gets (λ s. s.hcloud_machine.status.addresses))
                (λ addresses. check_addresses env server addresses)
                λ addresses. check_addresses_lem addresses r).at
          s h;
  }

  settle_lem : (b : Bool) → Readies env server (settle env server b)
  unfolding settle
  settle_lem b = elim (Bool-cases (is_running server.status)) [
    | inl e ↦ elim (Bool-cases b) [
      | inl c ↦ rw e (rw c (attach_and_check_lem (running_of e)))
      | inr w ↦ rw e (rw w (set_ready_lem (running_of e)))
    ]
    | inr e ↦ rw e (Ensures-other (some 2) (λ q. cc))
  ]
    where
      running_of : is_running server.status ≡ true → server.status ≡ running
      running_of e = unfold is_running in ground arith

  finish_lem : Readies env server (finish env server)
  unfolding finish
  finish_lem =
      Ensures-bind (store_status env server)
        (λ u. gets (λ s. s.machine.is_control_plane) >>= settle env server)
        λ u. Ensures-bind (gets (λ s. s.machine.is_control_plane)) (settle env server) settle_lem

module _ {Doc : Type 0} (env : Env) (user_data_lib : UserData Doc) where
  -- A server of the machine that the cloud reported, and the machine made ready with it.
  abbrev Obtained : Text → MachineScope → Type 0
  Obtained labels s = (server : Server) × Reported env labels server × Ready env server s

  with_image_lem :
      (failure_domain : Text) (image_id : ℕ) (s : MachineScope)
      → (with_image env user_data_lib failure_domain image_id s).0 ≡ ok none
      → Obtained (selector s) (with_image env user_data_lib failure_domain image_id s).1
  unfolding with_image
  with_image_lem failure_domain image_id s h =
      let (found, q, k, e) =
        bind-ok (wrapping (text "failed to get server") (find_server env))
          (λ found. obtain env user_data_lib failure_domain image_id found >>= finish env) s none
          h in
      let s1 = (find_server env s).1 in
      let (server, p, j, g) =
        bind-ok (obtain env user_data_lib failure_domain image_id found) (finish env) s1 none k in
      let searched : selector s1 ≡ selector s = find_server-selector env s in
      rw e (
        rw g (
          server,
          obtain-Reported env user_data_lib failure_domain image_id found s1 s server
              (wrapping-ok (text "failed to get server") (find_server env) s found q) searched p,
          (finish_lem env server).at (obtain env user_data_lib failure_domain image_id found s1).1
              j,
        ))

  await_lem :
      (failure_domain : Text) (image : Option ℕ) (secret : Option Text) (s : MachineScope)
      → (await env user_data_lib failure_domain image secret s).0 ≡ ok none
      → Obtained (selector s) (await env user_data_lib failure_domain image secret s).1
  unfolding await
  await_lem failure_domain none secret s h = absurd (cc)
  await_lem failure_domain (some image_id) none s h = absurd (cc)
  await_lem failure_domain (some image_id) (some secret) s h =
      with_image_lem failure_domain image_id s h

-- When `Reconcile` of a machine ends with neither an error nor a time to come back, the machine is
-- marked ready and its provider ID names a running server that the cloud reported: the only one that
-- it listed for the machine's labels, or the answer to a request for a server with these labels.
pub machine-Ready :
    {Doc : Type 0} (env : Env) (user_data_lib : UserData Doc) (s : MachineScope)
    → (reconcile env user_data_lib s).0 ≡ ok none
    → (server : Server) × Reported env (selector s) server
      × Ready env server (reconcile env user_data_lib s).1
unfolding reconcile
machine-Ready env user_data_lib s h =
    let (failure_domain, q, k, e) =
      bind-ok (place env user_data_lib)
        (λ failure_domain. required_image env user_data_lib >>= λ image.
          gets (λ s. s.machine.data_secret_name) >>= await env user_data_lib failure_domain image)
        s none h in
    let s1 = (place env user_data_lib s).1 in
    let (image, p, j, f) =
      bind-ok (required_image env user_data_lib)
        (λ image.
          gets (λ s. s.machine.data_secret_name) >>= await env user_data_lib failure_domain image)
        s1 none k in
    let s2 = (required_image env user_data_lib s1).1 in
    let same : selector s2 ≡ selector s =
      (required_image-Keeps env user_data_lib).at s1 ∙ (place-Keeps env user_data_lib).at s in
    rw e (
      rw f (
        rw (← same)
          (await_lem env user_data_lib failure_domain image s2.machine.data_secret_name s2 j)))
