-- ===== src/Server/Kubeadm.antt =====
-- What `createServer` of pkg/cloud/resources/server/server.go changes in the kubeadm configuration
-- of a control plane, and the operations of pkg/userdata that it calls, as an interface.
use cluster_api_provider_hcl.Base.{
  Text, text, Bool, Option, none, some, List, [], ◌∷◌, ◌++◌, Dict, lookup, put, mem_text,
  if◌then◌else◌,
}
use cluster_api_provider_hcl.Exec.{Result}

-- `kubeadmv1beta2.ClusterConfiguration`, with the fields that the code changes; a nil map is empty.
pub record ClusterConfiguration : Type 0 where
  pub api_server_extra_args : Dict Text
  pub controller_manager_extra_args : Dict Text
  pub cert_sans : List Text

-- `kubeadmv1beta2.InitConfiguration`, which the code passes on without reading it: one text stands
-- for its fields.
pub record InitConfiguration : Type 0 where
  pub init_fields : Text

-- `kubeadmv1beta2.JoinConfiguration`: the arguments of the node's kubelet, which the code changes,
-- and a text for the other fields.
pub record JoinConfiguration : Type 0 where
  pub kubelet_extra_args : Dict Text
  pub join_fields : Text

-- `KubeadmConfig`
pub record KubeadmConfig : Type 0 where
  pub cluster_configuration : Option ClusterConfiguration
  pub init_configuration : Option InitConfiguration
  pub join_configuration : Option JoinConfiguration
  pub is_init : Bool

-- The operations on user data of pkg/userdata/userdata.go.
pub record UserData (Doc : Type 0) : Type 0 where
  pub new_from_reader : Text → Result Doc
  pub get_kubeadm_config : Doc → Result KubeadmConfig
  pub set_kubeadm_config : Doc → KubeadmConfig → Result Doc
  pub write_yaml : Doc → Result Text

-- `if _, ok := m[k]; !ok { m[k] = v }`
unfoldable pub default_arg : Text → Text → Dict Text → Dict Text
default_arg k v m = elim (lookup k m) [ none ↦ put k v m | some w ↦ m ]

-- The loop over the names that the serving certificate needs.
unfoldable pub add_names : List Text → List Text → List Text
add_names [] sans = sans
add_names (name ∷ names) sans =
    add_names names (if mem_text name sans then sans else sans ++ (name ∷ []))

abbrev pub cloud_provider_key : Text
cloud_provider_key = text "cloud-provider"

abbrev pub service_account_issuer_key : Text
service_account_issuer_key = text "service-account-issuer"

abbrev pub service_account_signing_key_file_key : Text
service_account_signing_key_file_key = text "service-account-signing-key-file"

-- The arguments of the API server, with the issuer's URL as default.
unfoldable pub api_server_args : Text → Dict Text → Dict Text
unfolding default_arg
api_server_args issuer m =
    default_arg service_account_signing_key_file_key (text "/etc/kubernetes/pki/sa.key") (
      default_arg service_account_issuer_key issuer
        (default_arg cloud_provider_key (text "external") m))

-- The body of `if c := kubeadmConfig.ClusterConfiguration; c != nil`, of the issuer's URL and the
-- host of the control plane's endpoint.
unfoldable pub configure : Text → Text → ClusterConfiguration → ClusterConfiguration
unfolding api_server_args default_arg add_names
configure issuer host c = record {
  api_server_extra_args = api_server_args issuer c.api_server_extra_args;
  controller_manager_extra_args =
      default_arg cloud_provider_key (text "external") c.controller_manager_extra_args;
  cert_sans = add_names (text "127.0.0.1" ∷ text "localhost" ∷ host ∷ []) c.cert_sans;
}
