-- ===== src/Network.antt =====
-- The network service (pkg/cloud/resources/network/network.go).
pub mod Safety
pub mod Converge
mod Tests
use cluster_api_provider_hcl.Base.{
  Text, text, ℕ, Bool, true, false, Option, none, some, List, [], ◌∷◌, Dict, lookup, map,
  if◌then◌else◌, str_eq, not,
}
use cluster_api_provider_hcl.Exec.{
  Error, failure, Result, ok, err, panic, Exec, pure, fail, gets, deref, of_result, wrapping,
  modify, ◌>>=◌, ◌>>◌,
}
use cluster_api_provider_hcl.Api.{
  HcloudCluster, HcloudNetworkSpec, HcloudNetworkSubnetSpec, HcloudNetworkStatus, is_zero,
}
use cluster_api_provider_hcl.Api.Tags.{
  resource_lifecycle_owned, cluster_tag_key, labels_to_label_selector,
}
use cluster_api_provider_hcl.Hcloud.{Call, Network, NetworkSubnet, NetworkCreateOpts, NetLib, Env}
use cluster_api_provider_hcl.Scope.{ClusterScope, call, update_hcloud_cluster}

-- `apiToStatus`
unfoldable pub api_to_status : Network → HcloudNetworkStatus
api_to_status network = record {
  cidr_block = network.ip_range;
  subnets =
      map (λ n. record { cidr_block = n.ip_range; network_zone = n.network_zone }) network.subnets;
  id = network.id;
  labels = network.labels;
}

-- `Service.defaults`, of the cluster's network zone
unfoldable pub defaults : Text → HcloudNetworkSpec
defaults network_zone = record {
  cidr_block = text "10.0.0.0/16";
  subnets = record { cidr_block = text "10.0.0.0/24"; network_zone = network_zone } ∷ [];
}

-- `Service.labels`, of the cluster's name
unfoldable pub labels : Text → Dict Text
labels name = (cluster_tag_key name, resource_lifecycle_owned) ∷ []

-- The loop of `createNetwork` over the subnets of the spec.
unfoldable pub parse_subnets : NetLib → List HcloudNetworkSubnetSpec → Result (List NetworkSubnet)
parse_subnets net [] = ok []
parse_subnets net (sn ∷ subnets) = elim (net.parse_cidr sn.cidr_block) [
  | none ↦ err (failure (text "invalid network '%s'"))
  | some subnet ↦ elim (parse_subnets net subnets) [
    | ok rest ↦ ok (record { ip_range = subnet; network_zone = sn.network_zone } ∷ rest)
    | err e ↦ err e
    | panic ↦ panic
  ]
]

-- The options of `createNetwork`, or the error of a block that is no CIDR.
unfoldable pub create_opts : NetLib → Text → HcloudNetworkSpec → Result NetworkCreateOpts
unfolding parse_subnets labels
create_opts net name spec = elim (net.parse_cidr spec.cidr_block) [
  | none ↦ err (failure (text "invalid network '%s'"))
  | some network ↦ elim (parse_subnets net spec.subnets) [
    | ok subnets ↦
        ok (record { name = name; ip_range = network; labels = labels name; subnets = subnets })
    | err e ↦ err e
    | panic ↦ panic
  ]
]

-- `Service.createNetwork`
unfoldable pub create_network : Env → HcloudNetworkSpec → Exec ClusterScope HcloudNetworkStatus
create_network env spec = do
  name ← gets (λ s. s.hcloud_cluster.name)
  opts ← of_result (create_opts env.net name spec)
  network ←
      wrapping (text "error creating network")
        (call (Call.create_network opts) (λ h. env.hcloud.create_network h opts))
  pure (api_to_status network)

-- `for _, n := range networks { return apiToStatus(n) }`
first_status : List Network → Option HcloudNetworkStatus
first_status [] = none
first_status (n ∷ ns) = some (api_to_status n)

-- `Service.actualStatus`
unfoldable pub actual_status : Env → Exec ClusterScope (Option HcloudNetworkStatus)
unfolding first_status labels
actual_status env = do
  selector ← gets (λ s. labels_to_label_selector (labels s.hcloud_cluster.name))
  networks ← call (Call.list_networks selector) (λ h. env.hcloud.list_networks h selector)
  pure (first_status networks)

-- `status.Labels[clusterTagKey] == ResourceLifecycleOwned`; a missing key reads as an empty string.
unfoldable pub is_owned : Text → HcloudNetworkStatus → Bool
is_owned name status = elim (lookup (cluster_tag_key name) status.labels) [
  | none ↦ false
  | some lifecycle ↦ str_eq lifecycle resource_lifecycle_owned
]

-- `Service.deleteNetwork`
unfoldable pub delete_network : Env → HcloudNetworkStatus → Exec ClusterScope (Unit {0})
unfolding is_owned
delete_network env status = do
  name ← gets (λ s. s.hcloud_cluster.name)
  if not (is_owned name status)
      then pure tt
      else call (Call.delete_network status.id) (λ h. env.hcloud.delete_network h status.id)

set_spec_network : HcloudNetworkSpec → HcloudCluster → HcloudCluster
set_spec_network n c = record c { spec = record (c.spec) { network = some n } }

set_status_network : Option HcloudNetworkStatus → HcloudCluster → HcloudCluster
set_status_network n c = record c { status = record (c.status) { network = n } }

-- `if Spec.Network == nil { Spec.Network = s.defaults() }`, and the spec that then stands there
unfoldable pub ensure_spec : Exec ClusterScope HcloudNetworkSpec
unfolding defaults set_spec_network
ensure_spec s = elim (s.hcloud_cluster.spec.network) [
  | some spec ↦ (ok spec, s)
  | none ↦
      let spec = defaults s.hcloud_cluster.status.network_zone in
      (ok spec, record s { hcloud_cluster = set_spec_network spec s.hcloud_cluster })
]

-- `Reconcile` after the refresh found no network
unfoldable pub create_missing : Env → HcloudNetworkSpec → Exec ClusterScope (Unit {0})
unfolding create_network set_status_network
create_missing env spec = do
  status ← wrapping (text "failed to create network") (create_network env spec)
  update_hcloud_cluster (set_status_network (some status))

-- `Service.Reconcile`
unfoldable pub reconcile : Env → Exec ClusterScope (Unit {0})
unfolding ensure_spec actual_status create_missing set_status_network
reconcile env = do
  spec ← ensure_spec
  if is_zero spec then pure tt else do
    network_status ← wrapping (text "failed to refresh networks") (actual_status env)
    update_hcloud_cluster (set_status_network network_status)
    elim network_status [ some status ↦ pure tt | none ↦ create_missing env spec ]

-- `Service.Delete`
unfoldable pub delete : Env → Exec ClusterScope (Unit {0})
unfolding actual_status delete_network
delete env = do
  network_status ← wrapping (text "failed to refresh networks") (actual_status env)
  elim network_status [
    | none ↦ pure tt
    | some status ↦ wrapping (text "failed to delete network") (delete_network env status)
  ]
