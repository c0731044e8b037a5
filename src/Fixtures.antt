-- ===== src/Fixtures.antt =====
-- A concrete cluster and a concrete cloud: the cloud holds the objects that a record lists, and
-- accepts every request.
use cluster_api_provider_hcl.Base.{Text, text, ℕ, true, false, none, some, List, [], ◌∷◌}
use cluster_api_provider_hcl.Exec.{not_found, success, refusal}
use cluster_api_provider_hcl.Api.{
  HcloudCluster, HcloudLoadBalancerSpec, HcloudLoadBalancerStatus, LoadBalancerServiceSpec,
  HcloudMachineStatus, off, running, external_ip, ServerStatus, reclaim_delete,
  algorithm_round_robin, cluster_finalizer, machine_finalizer, volume_finalizer,
}
use cluster_api_provider_hcl.Api.Tags.{cluster_tag_key, resource_lifecycle_owned}
use cluster_api_provider_hcl.Hcloud.{
  Location, Network, LoadBalancer, Server, Volume, HcloudClient, KubeClient, NetLib, Env,
}
use cluster_api_provider_hcl.Scope.{ClusterScope, MachineScope, VolumeScope}

-- What the cloud lists, whatever the selector.
pub record Cloud : Type 0 where
  pub locations : List Location
  pub networks : List Network
  pub load_balancers : List LoadBalancer
  pub servers : List Server
  pub volumes : List Volume

abbrev pub nuremberg : Location
nuremberg = record { name = text "nbg1"; network_zone = text "eu-central" }

abbrev pub falkenstein : Location
falkenstein = record { name = text "fsn1"; network_zone = text "eu-central" }

abbrev pub the_network : Network
the_network = record {
  id = 7;
  ip_range = text "10.0.0.0/16";
  subnets = [];
  labels = (cluster_tag_key (text "demo"), resource_lifecycle_owned) ∷ [];
}

abbrev pub the_load_balancer : LoadBalancer
the_load_balancer = record {
  id = 5;
  name = text "demo-lb";
  type_name = text "lb11";
  public_ipv4 = 10 ∷ [];
  public_ipv6 = [];
  private_net = [];
  algorithm = algorithm_round_robin;
  labels = [];
  targets = [];
}

abbrev pub the_server : ServerStatus → Server
the_server status = record {
  id = 42;
  name = text "node";
  status = status;
  public_ipv4 = 10 ∷ [];
  public_ipv6 = [];
  private_net = [];
}

abbrev pub the_volume : Volume
the_volume = record { id = 3; name = text "demo-data"; location = text "nbg1"; size = 10 }

abbrev pub empty_cloud : Cloud
empty_cloud = record {
  locations = nuremberg ∷ falkenstein ∷ [];
  networks = [];
  load_balancers = [];
  servers = [];
  volumes = [];
}

abbrev pub client_of : Cloud → HcloudClient
client_of cloud = record {
  list_location = λ h. success cloud.locations;
  create_load_balancer = λ h opts. success the_load_balancer;
  delete_load_balancer = λ h id. success tt;
  list_load_balancers = λ h selector. success cloud.load_balancers;
  attach_load_balancer_to_network = λ h lb net. success tt;
  get_load_balancer_type_by_name = λ h name. success name;
  add_target_server_to_load_balancer = λ h lb server private. success tt;
  delete_target_server_of_load_balancer = λ h lb server. success tt;
  add_service_to_load_balancer = λ h lb service. success tt;
  create_server = λ h opts. success (the_server running);
  list_servers = λ h selector. success cloud.servers;
  delete_server = λ h id. success tt;
  shutdown_server = λ h id. success tt;
  create_volume = λ h opts. success the_volume;
  list_volumes = λ h selector. success cloud.volumes;
  delete_volume = λ h id. success tt;
  create_network = λ h opts. success the_network;
  list_networks = λ h selector. success cloud.networks;
  delete_network = λ h id. success tt;
  list_ssh_keys = λ h. success [];
}

abbrev pub kube : KubeClient
kube = record {
  get_hcloud_volume = λ h namespace name. refusal not_found;
  get_secret = λ h namespace name. success ((text "value", text "data") ∷ []);
  list_machines = λ h namespace. success [];
  list_hcloud_machines = λ h namespace. success [];
  patch = λ h finalizers. success tt;
  ensure_image = λ h version name. success (some 9);
  kubeconfig = λ h. success true;
  ready_check = λ h host. success tt;
  manifests_hash = λ h. success (text "hash");
  apply_manifests = λ h. success tt;
  new_target_cluster_manager = λ h. success tt;
}

abbrev pub net_lib : NetLib
net_lib = record {
  parse_cidr = λ block. some block;
  format_ip = λ ip. text "10.0.0.1";
  is_global_unicast = λ ip. false;
  generate_name = λ prefix. prefix;
  https_url = λ endpoint. endpoint.host;
  provider_id = λ id. text "hcloud://";
}

abbrev pub env_of : Cloud → Env
env_of cloud = record { hcloud = client_of cloud; kube = kube; net = net_lib }

abbrev pub service : ℕ → LoadBalancerServiceSpec
service port = record { protocol = text "tcp"; listen_port = port; destination_port = port }

abbrev pub load_balancer_spec : HcloudLoadBalancerSpec
load_balancer_spec = record {
  name = none;
  algorithm = algorithm_round_robin;
  type = text "lb11";
  services = service 6443 ∷ service 443 ∷ [];
}

abbrev pub load_balancer_status : Text → HcloudLoadBalancerStatus
load_balancer_status ipv4 = record {
  id = 5;
  name = text "demo-lb";
  type = text "lb11";
  ipv4 = ipv4;
  ipv6 = text "<nil>";
  internal_ip = [];
  labels = [];
  algorithm = algorithm_round_robin;
  targets = [];
}

abbrev pub demo_cluster : HcloudCluster
demo_cluster = record {
  name = text "demo";
  namespace = text "default";
  finalizers = cluster_finalizer ∷ [];
  is_deleted = true;
  spec = record {
    locations = text "nbg1" ∷ text "fsn1" ∷ [];
    ssh_keys = [];
    control_plane_load_balancer = load_balancer_spec;
    control_plane_endpoint = none;
    network = none;
    vc_kubelet_client_secret_enabled = false;
  };
  status = record {
    locations = text "fsn1" ∷ text "nbg1" ∷ [];
    network_zone = text "eu-central";
    control_plane_load_balancer = load_balancer_status (text "10.0.0.1");
    network = none;
    manifests = none;
    ready = false;
    failure_domains = [];
  };
}

abbrev pub demo_scope : ClusterScope
demo_scope = record {
  cluster = record {
    name = text "demo";
    namespace = text "default";
    control_plane_endpoint = record { host = text "10.0.0.1"; port = 6443 };
    failure_domains = (text "nbg1", true) ∷ [];
  };
  hcloud_cluster = demo_cluster;
  trace = [];
}

abbrev pub demo_machine_status : HcloudMachineStatus
demo_machine_status = record {
  location = [];
  image_id = none;
  server_state = off;
  ready = false;
  image_initialized = true;
  addresses = [];
}

-- A worker.
abbrev pub machine_scope : MachineScope
machine_scope = record {
  cluster_scope = demo_scope;
  machine = record {
    name = text "node";
    version = some (text "v1.18.6");
    failure_domain = none;
    data_secret_name = some (text "bootstrap");
    is_control_plane = false;
    infrastructure_ready = true;
    cluster_name = text "demo";
    infrastructure_ref_group_kind = [];
    infrastructure_ref_name = text "node";
  };
  hcloud_machine = record {
    name = text "node";
    namespace = text "default";
    finalizers = machine_finalizer ∷ [];
    is_deleted = false;
    spec = record {
      ssh_keys = [];
      type = text "cx31";
      volumes = [];
      image_name = text "fedora-32";
      provider_id = none;
    };
    status = demo_machine_status;
  };
}

abbrev pub volume_scope : VolumeScope
volume_scope = record {
  cluster_scope = demo_scope;
  hcloud_volume = record {
    name = text "data";
    namespace = text "default";
    finalizers = volume_finalizer ∷ [];
    is_deleted = false;
    spec = record { location = text "nbg1"; size = some 5; reclaim_policy = reclaim_delete };
    status = record { location = []; size = none; volume_id = none };
  };
}

-- The status of a machine with one external address.
abbrev pub status_of_node : HcloudMachineStatus
status_of_node = record demo_machine_status {
  server_state = running;
  addresses = record { type = external_ip; address = text "10.0.0.1" } ∷ [];
}
