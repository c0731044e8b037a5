-- ===== src/Server/Tests.antt =====
-- The server service at concrete inputs.
use cluster_api_provider_hcl.Base.{
  Text, text, true, false, none, some, List, [], ◌∷◌, lookup, mem_text, str_eq, ◌≡◌, refl,
}
use cluster_api_provider_hcl.Exec.{ok}
use cluster_api_provider_hcl.Api.{NodeAddress, external_ip, HcloudMachineStatus, off, running}
use cluster_api_provider_hcl.Hcloud.{Ip, Server, Env}
use cluster_api_provider_hcl.LoadBalancer.{format_ip}
use cluster_api_provider_hcl.Server.{selector, set_status_from_api, reconcile, delete}
use cluster_api_provider_hcl.Server.Kubeadm.{ClusterConfiguration, UserData, configure}
use cluster_api_provider_hcl.Server.Obtained.{Reported}
use cluster_api_provider_hcl.Server.Ready.{Ready, machine-Ready}
use cluster_api_provider_hcl.Server.Removal.{Gone, server_delete-Gone}
use cluster_api_provider_hcl.Server.Addresses.{first_address_external}
use cluster_api_provider_hcl.Server.Configure.{configure_again, configure_respects}
use cluster_api_provider_hcl.Fixtures.{
  the_server, the_load_balancer, empty_cloud, env_of, net_lib, machine_scope, demo_machine_status,
}

-- User data that is its own text.
abbrev plain : UserData Text
plain = record {
  new_from_reader = λ t. ok t;
  get_kubeadm_config = λ t. ok (record {
    cluster_configuration = none;
    init_configuration = none;
    join_configuration = none;
    is_init = false;
  });
  set_kubeadm_config = λ t config. ok t;
  write_yaml = λ t. ok t;
}

abbrev with_server_off : Env
with_server_off =
    env_of (record empty_cloud {
      servers = the_server off ∷ [];
      load_balancers = the_load_balancer ∷ [];
    })

test_reconcile : (reconcile (env_of empty_cloud) plain machine_scope).0 ≡ ok none
unfolding reconcile lookup str_eq text
test_reconcile = refl

machine-Ready_example :
    (server : Server) × Reported (env_of empty_cloud) (selector machine_scope) server
    × Ready (env_of empty_cloud) server (reconcile (env_of empty_cloud) plain machine_scope).1
machine-Ready_example = machine-Ready (env_of empty_cloud) plain machine_scope test_reconcile

test_delete : (delete with_server_off machine_scope).0 ≡ ok none
unfolding delete
test_delete = refl

server_delete-Gone_example :
    Gone with_server_off machine_scope (delete with_server_off machine_scope).1.cluster_scope.trace
server_delete-Gone_example = server_delete-Gone with_server_off machine_scope test_delete

abbrev address : Ip
address = 10 ∷ 255 ∷ []

abbrev next_address : Ip
next_address = 10 ∷ 0 ∷ []

abbrev status_of_server : HcloudMachineStatus
status_of_server = record demo_machine_status {
  server_state = running;
  addresses = record { type = external_ip; address = text "10.0.0.1" } ∷ [];
}

first_address_external_example :
    (a : NodeAddress) × (rest : List NodeAddress) × (status_of_server.addresses ≡ a ∷ rest)
    × (a.type ≡ external_ip)
    × (a.address ≡ format_ip net_lib (the_server running).public_ipv4)
first_address_external_example =
    first_address_external net_lib (the_server running) demo_machine_status status_of_server
      (λ b rest e. unfold text in cc e) (unfold set_status_from_api format_ip text str_eq in refl)

abbrev configuration : ClusterConfiguration
configuration = record {
  api_server_extra_args = (text "cloud-provider", text "aws") ∷ [];
  controller_manager_extra_args = [];
  cert_sans = text "localhost" ∷ [];
}

configure_again_example :
    configure
      (text "https://a:6443")
      (text "a")
      (configure (text "https://a:6443") (text "a") configuration)
    ≡ configure (text "https://a:6443") (text "a") configuration
configure_again_example = configure_again (text "https://a:6443") (text "a") configuration

configure_respects_example :
    (lookup
        (text "cloud-provider")
        (configure (text "https://a:6443") (text "a") configuration).api_server_extra_args
      ≡ some (text "aws"))
    × (mem_text (text "a") (configure (text "https://a:6443") (text "a") configuration).cert_sans
        ≡ true)
configure_respects_example =
    configure_respects (text "https://a:6443") (text "a") (text "cloud-provider") (text "aws")
      configuration (unfold lookup text str_eq in refl)
