-- ===== src/Server/Obtained.antt =====
-- Where the server that `Reconcile` goes on with comes from.
use cluster_api_provider_hcl.Base.{
  Text, text, ℕ, Option, none, some, List, [], ◌∷◌, ◌≡◌, ◌⊎◌, inl, inr, refl, arith,
}
use cluster_api_provider_hcl.Exec.{
  ok, Reply, success, refusal, Exec, pure, gets, wrapping, ◌>>=◌, ◌>>◌, deref,
}
use cluster_api_provider_hcl.Exec.Ensures.{bind-ok, wrapping-ok}
use cluster_api_provider_hcl.Api.Tags.{labels_to_label_selector}
use cluster_api_provider_hcl.Hcloud.{Call, History, Server, SshKey, ServerCreateOpts, Env}
use cluster_api_provider_hcl.Scope.{
  MachineScope, ask, on_cluster, update_hcloud_machine, eventf, event_normal,
}
use cluster_api_provider_hcl.Server.{selector, find_server, create_server, obtain}
use cluster_api_provider_hcl.Server.Create.{
  gather_volumes, render_user_data, request_server, create_opts, listed_keys, created,
}
use cluster_api_provider_hcl.Server.Kubeadm.{UserData}
use cluster_api_provider_hcl.Server.Selector.{
  set_image_id-Keeps, gather_volumes-Keeps, render_user_data-Keeps,
}

-- The cloud gave this server, as the only one that it listed for the labels, or as the answer to a
-- request for a server with these labels.
abbrev pub Reported : Env → Text → Server → Type 0
Reported env labels server =
    ((t : History) × (env.hcloud.list_servers t labels ≡ success (server ∷ [])))
    ⊎ ((t : History) × (opts : ServerCreateOpts) × (labels_to_label_selector opts.labels ≡ labels)
        × (env.hcloud.create_server t opts ≡ success server))

find_server-Reported :
    (env : Env) (s : MachineScope) (server : Server)
    → (find_server env s).0 ≡ ok (some server)
    → Reported env (selector s) server
find_server-Reported env s server h =
    go (env.hcloud.list_servers s.cluster_scope.trace (selector s)) refl
  where
    go :
        (r : Reply (List Server))
        → env.hcloud.list_servers s.cluster_scope.trace (selector s) ≡ r
        → Reported env (selector s) server
    go (refusal e) q = unfold find_server in ground arith
    go (success []) q = unfold find_server in ground arith
    go (success (a ∷ [])) q = inl (s.cluster_scope.trace, unfold find_server in ground arith)
    go (success (a ∷ b ∷ servers)) q = unfold find_server in ground arith

module _ {Doc : Type 0} (env : Env) (user_data_lib : UserData Doc) where
  -- The request with the options that the state gives.
  requested :
      (failure_domain : Text) (image_id : ℕ) (volumes : List ℕ) (user_data : Text)
      (keys : Reply (List SshKey)) (s : MachineScope) (server : Server)
      → ((gets (λ s. create_opts s failure_domain image_id user_data volumes (listed_keys keys))
            >>= λ opts.
                on_cluster (ask (Call.create_server opts) (λ h. env.hcloud.create_server h opts))
                >>= λ r. on_cluster (created r))
          s).0
        ≡ ok server
      → Reported env (selector s) server
  requested failure_domain image_id volumes user_data keys s server h =
      go (env.hcloud.create_server s.cluster_scope.trace opts) refl
    where
      opts : ServerCreateOpts
      opts = create_opts s failure_domain image_id user_data volumes (listed_keys keys)

      go :
          (r : Reply Server)
          → env.hcloud.create_server s.cluster_scope.trace opts ≡ r
          → Reported env (selector s) server
      go (success a) q = inr (
        s.cluster_scope.trace,
        opts,
        unfold create_opts selector in refl,
        unfold created in ground arith,
      )
      go (refusal e) q = unfold created in ground arith

  request_server-Reported :
      (failure_domain : Text) (image_id : ℕ) (volumes : List ℕ) (s : MachineScope) (server : Server)
      → (request_server env user_data_lib failure_domain image_id volumes s).0 ≡ ok server
      → Reported env (selector s) server
  unfolding request_server selector
  request_server-Reported failure_domain image_id volumes s server h =
      let (user_data, q, k, e) = bind-ok (render_user_data env user_data_lib) _ s server h in
      let s1 = (render_user_data env user_data_lib s).1 in
      let keys = env.hcloud.list_ssh_keys s1.cluster_scope.trace in
      let s2 = (on_cluster (ask Call.list_ssh_keys (λ h. env.hcloud.list_ssh_keys h)) s1).1 in
      rw (← (render_user_data-Keeps env user_data_lib).at s)
        (requested failure_domain image_id volumes user_data keys s2 server k)

  create_server-Reported :
      (failure_domain : Text) (image_id : ℕ) (s : MachineScope) (server : Server)
      → (create_server env user_data_lib failure_domain image_id s).0 ≡ ok (some server)
      → Reported env (selector s) server
  unfolding create_server
  create_server-Reported failure_domain image_id s server h =
      let (volumes, q, k, e) =
        bind-ok (gather_volumes env s.hcloud_machine.namespace s.hcloud_machine.spec.volumes)
          (λ volumes. elim volumes as (λ _. Exec MachineScope (Option Server)) [
            | none ↦ pure none
            | some ids ↦ request_server env user_data_lib failure_domain image_id ids >>= λ server.
                pure (some server)
          ])
          s1 (some server) h in
      rw (← (set_image_id-Keeps image_id).at s) (
        rw
          (← (gather_volumes-Keeps env s.hcloud_machine.namespace s.hcloud_machine.spec.volumes).at
            s1)
          (go volumes k))
    where
      s1 : MachineScope
      s1 =
          (update_hcloud_machine
            (λ m. record m { status = record (m.status) { image_id = some image_id } }) s).1

      s2 : MachineScope
      s2 = (gather_volumes env s.hcloud_machine.namespace s.hcloud_machine.spec.volumes s1).1

      go :
          (volumes : Option (List ℕ))
          → (elim volumes as (λ _. Exec MachineScope (Option Server)) [
            | none ↦ pure none
            | some ids ↦ request_server env user_data_lib failure_domain image_id ids >>= λ server.
                pure (some server)
          ]
              s2).0
            ≡ ok (some server)
          → Reported env (selector s2) server
      go none k = absurd (cc)
      go (some ids) k =
          let (a, q, same, e) =
            bind-ok (request_server env user_data_lib failure_domain image_id ids)
              (λ server. pure (some server)) s2 (some server) k in
          let one : a ≡ server = cc in
          request_server-Reported failure_domain image_id ids s2 server (rw one at q)

  -- The server that `Reconcile` goes on with is one that the cloud reported.
  pub obtain-Reported :
      (failure_domain : Text) (image_id : ℕ) (found : Option Server) (s s0 : MachineScope)
      (server : Server)
      → (find_server env s0).0 ≡ ok found
      → selector s ≡ selector s0
      → (obtain env user_data_lib failure_domain image_id found s).0 ≡ ok server
      → Reported env (selector s0) server
  unfolding obtain
  obtain-Reported failure_domain image_id (some a) s s0 server f same h =
      let one : a ≡ server = cc in find_server-Reported env s0 server (rw one at f)
  obtain-Reported failure_domain image_id none s s0 server f same h =
      let (instance_, q, k, e) =
        bind-ok
          (wrapping (text "failed to create server")
            (create_server env user_data_lib failure_domain image_id))
          (λ instance_. deref instance_ >>= λ server.
            on_cluster (eventf event_normal (text "SuccessfulCreate")) >> pure server)
          s server h in
      go instance_
        (wrapping-ok (text "failed to create server")
          (create_server env user_data_lib failure_domain image_id) s instance_ q)
        k
    where
      s1 : MachineScope
      s1 = (create_server env user_data_lib failure_domain image_id s).1

      go :
          (instance_ : Option Server)
          → (create_server env user_data_lib failure_domain image_id s).0 ≡ ok instance_
          → ((deref instance_ >>= λ server.
                on_cluster (eventf event_normal (text "SuccessfulCreate")) >> pure server)
              s1).0
            ≡ ok server
          → Reported env (selector s0) server
      go none q k = absurd (cc)
      go (some a) q k =
          let one : a ≡ server = cc in
          rw (← same) (create_server-Reported failure_domain image_id s server (rw one at q))
