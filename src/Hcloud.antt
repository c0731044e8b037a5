-- ===== src/Hcloud.antt =====
-- The objects of the Hetzner cloud API that the controllers use, the requests that the program
-- makes of other systems, and the clients that answer them (pkg/scope/hcloudClient.go).
--
-- The answers are a parameter: a client is a function of all requests made so far, newest first,
-- which stand for the state of the other systems, and of the request's arguments.
use cluster_api_provider_hcl.Base.{Text, ℕ, Bool, Option, List, Dict}
use cluster_api_provider_hcl.Exec.{Reply}
use cluster_api_provider_hcl.Api.{ApiEndpoint, ServerStatus, HcloudMachine, HcloudVolume}

-- `net.IP`: its bytes; the nil address has none.
abbrev pub Ip : Type 0
Ip = List ℕ

pub record Location : Type 0 where
  pub name : Text
  pub network_zone : Text

pub record NetworkSubnet : Type 0 where
  pub ip_range : Text
  pub network_zone : Text

pub record Network : Type 0 where
  pub id : ℕ
  pub ip_range : Text
  pub subnets : List NetworkSubnet
  pub labels : Dict Text

pub record NetworkCreateOpts : Type 0 where
  pub name : Text
  pub ip_range : Text
  pub labels : Dict Text
  pub subnets : List NetworkSubnet

-- A target of a load balancer: the server that it names, if it names one.
pub record LoadBalancer : Type 0 where
  pub id : ℕ
  pub name : Text
  pub type_name : Text
  pub public_ipv4 : Ip
  pub public_ipv6 : Ip
  pub private_net : List Ip
  pub algorithm : Text
  pub labels : Dict Text
  pub targets : List (Option ℕ)

pub record LoadBalancerService : Type 0 where
  pub protocol : Text
  pub listen_port : ℕ
  pub destination_port : ℕ
  pub proxyprotocol : Bool

pub record LoadBalancerCreateOpts : Type 0 where
  pub load_balancer_type : Text
  pub name : Text
  pub algorithm : Text
  pub location : Text
  pub network : Option ℕ
  pub labels : Dict Text
  pub services : List LoadBalancerService

pub record Server : Type 0 where
  pub id : ℕ
  pub name : Text
  pub status : ServerStatus
  pub public_ipv4 : Ip
  pub public_ipv6 : Ip
  pub private_net : List Ip

pub record SshKey : Type 0 where
  pub id : ℕ
  pub name : Text

pub record ServerCreateOpts : Type 0 where
  pub name : Text
  pub labels : Dict Text
  pub image : ℕ
  pub location : Text
  pub server_type : Text
  pub automount : Bool
  pub start_after_create : Bool
  pub user_data : Text
  pub volumes : List ℕ
  pub ssh_keys : List SshKey
  pub networks : List ℕ

-- The size is in GiB.
pub record Volume : Type 0 where
  pub id : ℕ
  pub name : Text
  pub location : Text
  pub size : ℕ

pub record VolumeCreateOpts : Type 0 where
  pub name : Text
  pub labels : Dict Text
  pub location : Text
  pub format : Text
  pub automount : Bool
  pub size : ℕ

-- `clusterv1.Machine`, with the fields that the controllers read.
pub record Machine : Type 0 where
  pub name : Text
  pub version : Option Text
  pub failure_domain : Option Text
  pub data_secret_name : Option Text
  pub is_control_plane : Bool
  pub infrastructure_ready : Bool
  pub cluster_name : Text
  pub infrastructure_ref_group_kind : Text
  pub infrastructure_ref_name : Text

-- The requests. An event carries its type and its reason; a patch carries the finalizers of the
-- object that it persists.
pub data Call : Type 0 where
  list_location : Call
  list_networks list_load_balancers list_servers list_volumes : Text → Call
  create_network : NetworkCreateOpts → Call
  delete_network : ℕ → Call
  create_load_balancer : LoadBalancerCreateOpts → Call
  delete_load_balancer : ℕ → Call
  attach_load_balancer_to_network : ℕ → ℕ → Call
  get_load_balancer_type_by_name : Text → Call
  add_service_to_load_balancer : ℕ → LoadBalancerService → Call
  add_target_server_to_load_balancer : ℕ → ℕ → Bool → Call
  delete_target_server_of_load_balancer : ℕ → ℕ → Call
  create_server : ServerCreateOpts → Call
  delete_server shutdown_server : ℕ → Call
  create_volume : VolumeCreateOpts → Call
  delete_volume : ℕ → Call
  list_ssh_keys : Call
  get_hcloud_volume get_secret : Text → Text → Call
  list_machines list_hcloud_machines : Text → Call
  ensure_image : Text → Text → Call
  get_kubeconfig : Call
  ready_check : Text → Call
  manifests_hash apply_manifests new_target_cluster_manager : Call
  start_target_cluster_manager stop_target_cluster_manager : Call
  patch : List Text → Call
  event : Text → Text → Call

abbrev pub History : Type 0
History = List Call

-- `HcloudClient` of pkg/scope/hcloudClient.go, less `Token`, `ListImages` and `GetServerByID`.
pub record HcloudClient : Type 0 where
  pub list_location : History → Reply (List Location)
  pub create_load_balancer : History → LoadBalancerCreateOpts → Reply LoadBalancer
  pub delete_load_balancer : History → ℕ → Reply (Unit {0})
  pub list_load_balancers : History → Text → Reply (List LoadBalancer)
  pub attach_load_balancer_to_network : History → ℕ → ℕ → Reply (Unit {0})
  pub get_load_balancer_type_by_name : History → Text → Reply Text
  pub add_target_server_to_load_balancer : History → ℕ → ℕ → Bool → Reply (Unit {0})
  pub delete_target_server_of_load_balancer : History → ℕ → ℕ → Reply (Unit {0})
  pub add_service_to_load_balancer : History → ℕ → LoadBalancerService → Reply (Unit {0})
  pub create_server : History → ServerCreateOpts → Reply Server
  pub list_servers : History → Text → Reply (List Server)
  pub delete_server : History → ℕ → Reply (Unit {0})
  pub shutdown_server : History → ℕ → Reply (Unit {0})
  pub create_volume : History → VolumeCreateOpts → Reply Volume
  pub list_volumes : History → Text → Reply (List Volume)
  pub delete_volume : History → ℕ → Reply (Unit {0})
  pub create_network : History → NetworkCreateOpts → Reply Network
  pub list_networks : History → Text → Reply (List Network)
  pub delete_network : History → ℕ → Reply (Unit {0})
  pub list_ssh_keys : History → Reply (List SshKey)

-- What the controllers ask of the management cluster, of the packer and of a guest cluster.
pub record KubeClient : Type 0 where
  pub get_hcloud_volume : History → Text → Text → Reply HcloudVolume
  pub get_secret : History → Text → Text → Reply (Dict Text)
  pub list_machines : History → Text → Reply (List Machine)
  pub list_hcloud_machines : History → Text → Reply (List HcloudMachine)
  pub patch : History → List Text → Reply (Unit {0})
  pub ensure_image : History → Text → Text → Reply (Option ℕ)
  -- The kubeconfig of the guest cluster, of which the code uses only whether it names a cluster.
  pub kubeconfig : History → Reply Bool
  pub ready_check : History → Text → Reply (Unit {0})
  pub manifests_hash : History → Reply Text
  pub apply_manifests : History → Reply (Unit {0})
  pub new_target_cluster_manager : History → Reply (Unit {0})

-- Functions of packages `net`, `net/url` and `fmt` and of the name generator, on the values that the
-- code passes on: `https_url` prints the URL of a host and a port, `provider_id` is `hcloud://%d`.
pub record NetLib : Type 0 where
  pub parse_cidr : Text → Option Text
  pub format_ip : Ip → Text
  pub is_global_unicast : Ip → Bool
  pub generate_name : Text → Text
  pub https_url : ApiEndpoint → Text
  pub provider_id : ℕ → Text

pub record Env : Type 0 where
  pub hcloud : HcloudClient
  pub kube : KubeClient
  pub net : NetLib
