-- ===== src/Server/Selector.antt =====
-- The labels by which the machine's server is found stay the same while `Reconcile` runs.
use cluster_api_provider_hcl.Base.{Text, ℕ, Option, none, some, List, [], ◌∷◌, ◌≡◌, refl, arith}
use cluster_api_provider_hcl.Exec.{Reply, success, refusal, Exec}
use cluster_api_provider_hcl.Exec.Keeps.{Keeps, keeps_rules, Keeps-pure, Keeps-bind}
use cluster_api_provider_hcl.Api.{HcloudMachineStatus, HcloudVolume}
use cluster_api_provider_hcl.Hcloud.{Call, History, Env}
use cluster_api_provider_hcl.Scope.{
  MachineScope, call, ask, eventf, on_cluster, update_hcloud_machine, get_raw_bootstrap_data,
}
use cluster_api_provider_hcl.Server.{selector, find_server, place, required_image, ensure_image}
use cluster_api_provider_hcl.Server.Create.{
  add_volume, gather_volumes, bootstrap_data, configure_init, configure_kubeadm, render_user_data,
}
use cluster_api_provider_hcl.Server.Kubeadm.{UserData, KubeadmConfig}

-- A call with requests and events only.
on_cluster-call :
    {A : Type 0} (c : Call) (reply : History → Reply A) → Keeps selector (on_cluster (call c reply))
unfolding selector
on_cluster-call c reply = record { at = λ s. refl }

on_cluster-ask :
    {A : Type 0} (c : Call) (reply : History → Reply A) → Keeps selector (on_cluster (ask c reply))
unfolding selector
on_cluster-ask c reply = record { at = λ s. refl }

on_cluster_event : (type reason : Text) → Keeps selector (on_cluster (eventf type reason))
unfolding selector
on_cluster_event type reason = record { at = λ s. refl }

set_machine_status :
    (f : HcloudMachineStatus → HcloudMachineStatus)
    → Keeps selector (update_hcloud_machine (λ m. record m { status = f m.status }))
unfolding selector
set_machine_status f = record { at = λ s. refl }

module _ {Doc : Type 0} (env : Env) (user_data_lib : UserData Doc) where
  pub place-Keeps : Keeps selector (place env user_data_lib)
  unfolding place selector
  place-Keeps = search keeps_rules depth 20

  pub required_image-Keeps : Keeps selector (required_image env user_data_lib)
  unfolding required_image ensure_image selector
  required_image-Keeps = record { at = λ s. ground arith }

pub set_image_id-Keeps :
    (image_id : ℕ)
    → Keeps selector (
        update_hcloud_machine
          (λ m. record m { status = record (m.status) { image_id = some image_id } }))
set_image_id-Keeps image_id = set_machine_status _

add_volume-Keeps :
    (r : Reply HcloudVolume) (rest : Exec MachineScope (Option (List ℕ)))
    → Keeps selector rest
    → Keeps selector (add_volume r rest)
unfolding add_volume
add_volume-Keeps (refusal e) rest k = search keeps_rules depth 20
add_volume-Keeps (success v) rest k = go v.status.volume_id refl
  where
    go : (o : Option ℕ) → v.status.volume_id ≡ o → Keeps selector (add_volume (success v) rest)
    go none e = rw (e, add_volume) (Keeps-pure none)
    go (some id) e = rw (e, add_volume) (Keeps-bind rest _ k (λ ids. Keeps-pure _))

pub gather_volumes-Keeps :
    (env : Env) (namespace : Text) (names : List Text)
    → Keeps selector (gather_volumes env namespace names)
unfolding gather_volumes
gather_volumes-Keeps env namespace [] = search keeps_rules depth 20
gather_volumes-Keeps env namespace (v ∷ vs) = Keeps-bind _ _ (on_cluster-ask _ _) (λ r.
    add_volume-Keeps r (gather_volumes env namespace vs) (gather_volumes-Keeps env namespace vs))

bootstrap_data-Keeps : (env : Env) → Keeps selector (bootstrap_data env)
unfolding bootstrap_data get_raw_bootstrap_data selector
bootstrap_data-Keeps env = record { at = λ s. ground arith }

configure_kubeadm-Keeps :
    (env : Env) (config : KubeadmConfig) → Keeps selector (configure_kubeadm env config)
unfolding configure_kubeadm configure_init selector
configure_kubeadm-Keeps env config = record { at = λ s. ground arith }

pub render_user_data-Keeps :
    {Doc : Type 0} (env : Env) (user_data_lib : UserData Doc)
    → Keeps selector (render_user_data env user_data_lib)
unfolding render_user_data
render_user_data-Keeps env user_data_lib =
    search (keeps_rules, bootstrap_data-Keeps, configure_kubeadm-Keeps) depth 30

pub find_server-selector :
    (env : Env) (s : MachineScope) → selector (find_server env s).1 ≡ selector s
unfolding find_server selector
find_server-selector env s = ground arith
