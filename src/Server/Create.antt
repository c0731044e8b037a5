-- ===== src/Server/Create.antt =====
-- `createServer` of pkg/cloud/resources/server/server.go.
use cluster_api_provider_hcl.Base.{
  Text, text, ℕ, Bool, true, false, Option, none, some, List, [], ◌∷◌, ◌==◌, ◌||◌, ◌&&◌, str_eq,
  filter, length, if◌then◌else◌,
}
use cluster_api_provider_hcl.Exec.{
  Error, wrapped, not_found, ok, err, panic, Reply, success, refusal, Exec, pure, fail, gets, deref,
  of_result, wrapping, ◌>>=◌, ◌>>◌,
}
use cluster_api_provider_hcl.Api.{HcloudVolume, HcloudSshKeySpec}
use cluster_api_provider_hcl.Hcloud.{Call, Server, ServerCreateOpts, SshKey, Env}
use cluster_api_provider_hcl.Scope.{
  ClusterScope, MachineScope, ask, eventf, event_warning, on_cluster, get_raw_bootstrap_data,
  update_hcloud_machine,
}
use cluster_api_provider_hcl.Server.Status.{create_labels}
use cluster_api_provider_hcl.Server.Kubeadm.{
  KubeadmConfig, ClusterConfiguration, UserData, configure,
}

-- `apierrors.IsNotFound`
unfoldable pub is_not_found : Error → Bool
is_not_found not_found = true
is_not_found e = false

-- One round of the loop over the volumes, of the answer and the rest of the loop; none stands for
-- the early `return nil, nil`.
unfoldable pub add_volume :
    Reply HcloudVolume → Exec MachineScope (Option (List ℕ)) → Exec MachineScope (Option (List ℕ))
unfolding is_not_found
add_volume (refusal e) rest = if is_not_found e then pure none else fail e
add_volume (success v) rest = elim (v.status.volume_id) [
  | none ↦ pure none
  | some id ↦ (do ids ← rest; pure (elim ids [ none ↦ none | some is ↦ some (id ∷ is) ]))
]

-- The loop over the volumes of the machine, of their names and the namespace
unfoldable pub gather_volumes : Env → Text → List Text → Exec MachineScope (Option (List ℕ))
unfolding add_volume
gather_volumes env namespace [] = pure (some [])
gather_volumes env namespace (v ∷ vs) =
    let rest = gather_volumes env namespace vs in
    (do
      r ←
          on_cluster (
            ask (Call.get_hcloud_volume namespace v)
              (λ h. env.kube.get_hcloud_volume h namespace v))
      add_volume r rest)

-- The two tests of the loop over the specs of SSH keys.
unfoldable pub matches_spec : SshKey → HcloudSshKeySpec → Bool
matches_spec key spec =
    elim (spec.name) [ none ↦ false | some n ↦ str_eq n key.name ]
    || elim (spec.id) [ none ↦ false | some i ↦ i == key.id ]

unfoldable pub matches_any : List HcloudSshKeySpec → SshKey → Bool
unfolding matches_spec
matches_any [] key = false
matches_any (spec ∷ specs) key = matches_spec key spec || matches_any specs key

-- The specs that apply: the machine's, or else the cluster's.
unfoldable pub ssh_key_specs : MachineScope → List HcloudSshKeySpec
ssh_key_specs s =
    if length s.hcloud_machine.spec.ssh_keys == 0
    then s.cluster_scope.hcloud_cluster.spec.ssh_keys
    else s.hcloud_machine.spec.ssh_keys

-- The answer to `ListSSHKeys`, whose error the code drops.
unfoldable pub listed_keys : Reply (List SshKey) → List SshKey
listed_keys (success keys) = keys
listed_keys (refusal e) = []

-- `opts`, of the location, the image, the user data, the volumes and the listed SSH keys
unfoldable pub create_opts :
    MachineScope → Text → ℕ → Text → List ℕ → List SshKey → ServerCreateOpts
unfolding create_labels ssh_key_specs matches_any
create_opts s failure_domain image_id user_data volumes keys = record {
  name = s.hcloud_machine.name;
  labels =
      create_labels s.cluster_scope.hcloud_cluster.name s.hcloud_machine.name
        s.machine.is_control_plane;
  image = image_id;
  location = failure_domain;
  server_type = s.hcloud_machine.spec.type;
  automount = false;
  start_after_create = true;
  user_data = user_data;
  volumes = volumes;
  ssh_keys = filter (matches_any (ssh_key_specs s)) keys;
  networks = elim (s.cluster_scope.hcloud_cluster.status.network) [
    | none ↦ []
    | some net ↦ net.id ∷ []
  ];
}

-- `GetRawBootstrapData` and what follows its error
unfoldable pub bootstrap_data : Env → Exec MachineScope Text
unfolding get_raw_bootstrap_data
bootstrap_data env s =
    let (r, s') = get_raw_bootstrap_data env s in
    elim r [
      | ok value ↦ (ok value, s')
      | err e ↦
          (do
            on_cluster (eventf event_warning (text "FailedGetBootstrapData"))
            fail (wrapped (text "Failed to get raw bootstrap data: %s") e))
            s'
      | panic ↦ (panic, s')
    ]

-- The part of `createServer` on a control plane's cluster configuration.
unfoldable pub configure_init : Env → ClusterConfiguration → Exec MachineScope ClusterConfiguration
unfolding configure
configure_init env c = do
  endpoint ← gets (λ s. s.cluster_scope.hcloud_cluster.spec.control_plane_endpoint)
  host ← deref endpoint
  issuer ← gets (λ s. env.net.https_url s.cluster_scope.cluster.control_plane_endpoint)
  pure (configure issuer host.host c)

unfoldable pub configure_kubeadm : Env → KubeadmConfig → Exec MachineScope KubeadmConfig
unfolding configure_init
configure_kubeadm env config = do
  is_control_plane ← gets (λ s. s.machine.is_control_plane)
  if is_control_plane && config.is_init
      then elim (config.cluster_configuration) [
        | some c ↦ (do
          next ← configure_init env c
          pure (record config { cluster_configuration = some next }))
        | none ↦ (do on_cluster (eventf event_warning (text "UnexpectedUserData")); pure config)
      ]
      else pure config

-- What follows the request for a server.
unfoldable pub created : Reply Server → Exec ClusterScope Server
created (success server) = pure server
created (refusal e) = do
  eventf event_warning (text "FailedCreateHcloudServer")
  fail (wrapped (text "Error while creating Hcloud server %s: %s") e)

module _ {Doc : Type 0} (env : Env) (user_data_lib : UserData Doc) where
  -- From the bootstrap data to the user data of the server.
  unfoldable pub render_user_data : Exec MachineScope Text
  unfolding bootstrap_data configure_kubeadm
  render_user_data = do
    initial ← bootstrap_data env
    doc ←
        wrapping (text "Failed get userdata reader: %s")
          (of_result (user_data_lib.new_from_reader initial))
    config ←
        wrapping (text "Failed to get kubeadm config: %s")
          (of_result (user_data_lib.get_kubeadm_config doc))
    configured ← configure_kubeadm env config
    written ← of_result (user_data_lib.set_kubeadm_config doc configured)
    of_result (user_data_lib.write_yaml written)

  -- The rest of `createServer`, once the volumes are known
  unfoldable pub request_server : Text → ℕ → List ℕ → Exec MachineScope Server
  unfolding render_user_data create_opts listed_keys created
  request_server failure_domain image_id volumes = do
    user_data ← render_user_data
    keys ← on_cluster (ask Call.list_ssh_keys (λ h. env.hcloud.list_ssh_keys h))
    opts ← gets (λ s. create_opts s failure_domain image_id user_data volumes (listed_keys keys))
    r ← on_cluster (ask (Call.create_server opts) (λ h. env.hcloud.create_server h opts))
    on_cluster (created r)

  -- `createServer`; none is the nil server
  unfoldable pub create_server : Text → ℕ → Exec MachineScope (Option Server)
  unfolding gather_volumes request_server
  create_server failure_domain image_id = do
    update_hcloud_machine
        (λ m. record m { status = record (m.status) { image_id = some image_id } })
    namespace ← gets (λ s. s.hcloud_machine.namespace)
    names ← gets (λ s. s.hcloud_machine.spec.volumes)
    volumes ← gather_volumes env namespace names
    elim volumes [
      | none ↦ pure none
      | some ids ↦ (do server ← request_server failure_domain image_id ids; pure (some server))
    ]
