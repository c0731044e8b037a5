-- ===== src/Api.antt =====
-- The custom resources of api/v1alpha3 (hcloudcluster_types.go, hcloudmachine_types.go,
-- hcloudvolume_types.go), with the fields that the controllers read or write. An integer type that
-- only carries an identifier or a size is ℕ; a string type is a text.
pub mod Tags
pub mod Webhook
mod Tests
use cluster_api_provider_hcl.Base.{
  Text, text, ℕ, Bool, true, false, Option, List, Dict, ltb, length, if◌then◌else◌,
}

-- `corev1.NodeAddressType`
pub data NodeAddressType : Type 0 where
  host_name internal_ip external_ip internal_dns external_dns : NodeAddressType

-- `corev1.NodeAddress`
pub record NodeAddress : Type 0 where
  pub type : NodeAddressType
  pub address : Text

-- The status of a server in the cloud's API; only two are told apart by the code.
pub data ServerStatus : Type 0 where
  running off : ServerStatus
  other_status : Text → ServerStatus

-- `HcloudSSHKeySpec`
pub record HcloudSshKeySpec : Type 0 where
  pub name : Option Text
  pub id : Option ℕ

-- `LoadBalancerServiceSpec`
pub record LoadBalancerServiceSpec : Type 0 where
  pub protocol : Text
  pub listen_port : ℕ
  pub destination_port : ℕ

-- `HcloudLoadBalancerSpec`
pub record HcloudLoadBalancerSpec : Type 0 where
  pub name : Option Text
  pub algorithm : Text
  pub type : Text
  pub services : List LoadBalancerServiceSpec

-- `HcloudNetworkSubnetSpec`
pub record HcloudNetworkSubnetSpec : Type 0 where
  pub cidr_block : Text
  pub network_zone : Text

-- `HcloudNetworkSpec`
pub record HcloudNetworkSpec : Type 0 where
  pub cidr_block : Text
  pub subnets : List HcloudNetworkSubnetSpec

-- `HcloudNetworkSpec.IsZero`
unfoldable pub is_zero : HcloudNetworkSpec → Bool
is_zero s =
    if ltb 0 (length s.cidr_block) then false else if ltb 0 (length s.subnets) then false else true

-- `HcloudNetworkStatus`
pub record HcloudNetworkStatus : Type 0 where
  pub cidr_block : Text
  pub subnets : List HcloudNetworkSubnetSpec
  pub id : ℕ
  pub labels : Dict Text

-- `HcloudLoadBalancerStatus`
pub record HcloudLoadBalancerStatus : Type 0 where
  pub id : ℕ
  pub name : Text
  pub type : Text
  pub ipv4 : Text
  pub ipv6 : Text
  pub internal_ip : Text
  pub labels : Dict Text
  pub algorithm : Text
  pub targets : List ℕ

-- `HcloudClusterStatusManifests`
pub record HcloudClusterStatusManifests : Type 0 where
  pub initialized : Option Bool
  pub applied_hash : Option Text

-- `clusterv1.APIEndpoint`; the port is the bit pattern of an int32.
pub record ApiEndpoint : Type 0 where
  pub host : Text
  pub port : ℕ

-- `HcloudClusterSpec`
pub record HcloudClusterSpec : Type 0 where
  pub locations : List Text
  pub ssh_keys : List HcloudSshKeySpec
  pub control_plane_load_balancer : HcloudLoadBalancerSpec
  pub control_plane_endpoint : Option ApiEndpoint
  pub network : Option HcloudNetworkSpec
  pub vc_kubelet_client_secret_enabled : Bool

-- `HcloudClusterStatus`; a failure domain maps a location to its `ControlPlane` flag.
pub record HcloudClusterStatus : Type 0 where
  pub locations : List Text
  pub network_zone : Text
  pub control_plane_load_balancer : HcloudLoadBalancerStatus
  pub network : Option HcloudNetworkStatus
  pub manifests : Option HcloudClusterStatusManifests
  pub ready : Bool
  pub failure_domains : Dict Bool

-- `HcloudCluster`
pub record HcloudCluster : Type 0 where
  pub name : Text
  pub namespace : Text
  pub finalizers : List Text
  pub is_deleted : Bool
  pub spec : HcloudClusterSpec
  pub status : HcloudClusterStatus

-- `HcloudMachineSpec`; a volume is its `VolumeRef`.
pub record HcloudMachineSpec : Type 0 where
  pub ssh_keys : List HcloudSshKeySpec
  pub type : Text
  pub volumes : List Text
  pub image_name : Text
  pub provider_id : Option Text

-- `HcloudMachineStatus`
pub record HcloudMachineStatus : Type 0 where
  pub location : Text
  pub image_id : Option ℕ
  pub server_state : ServerStatus
  pub ready : Bool
  pub image_initialized : Bool
  pub addresses : List NodeAddress

-- `HcloudMachine`
pub record HcloudMachine : Type 0 where
  pub name : Text
  pub namespace : Text
  pub finalizers : List Text
  pub is_deleted : Bool
  pub spec : HcloudMachineSpec
  pub status : HcloudMachineStatus

-- `HcloudVolumeSpec`; a quantity is its value in bytes.
pub record HcloudVolumeSpec : Type 0 where
  pub location : Text
  pub size : Option ℕ
  pub reclaim_policy : Text

-- `HcloudVolumeStatus`
pub record HcloudVolumeStatus : Type 0 where
  pub location : Text
  pub size : Option ℕ
  pub volume_id : Option ℕ

-- `HcloudVolume`
pub record HcloudVolume : Type 0 where
  pub name : Text
  pub namespace : Text
  pub finalizers : List Text
  pub is_deleted : Bool
  pub spec : HcloudVolumeSpec
  pub status : HcloudVolumeStatus

abbrev pub cluster_finalizer : Text
cluster_finalizer = text "hcloudcluster.cluster-api-provider-hcloud.capihc.com"

abbrev pub machine_finalizer : Text
machine_finalizer = text "hcloudmachine.cluster-api-provider-hcloud.capihc.com"

abbrev pub volume_finalizer : Text
volume_finalizer = text "hcloudvolume.cluster-api-provider-hcloud.capihc.com"

abbrev pub reclaim_delete : Text
reclaim_delete = text "Delete"

abbrev pub reclaim_retain : Text
reclaim_retain = text "Retain"

abbrev pub algorithm_round_robin : Text
algorithm_round_robin = text "round_robin"

abbrev pub algorithm_least_connections : Text
algorithm_least_connections = text "least_connections"
