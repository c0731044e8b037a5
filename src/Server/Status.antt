-- ===== src/Server/Status.antt =====
-- What the server service reads from a server of the cloud (`setStatusFromAPI` of
-- pkg/cloud/resources/server/server.go) and its labels (`createLabels`).
use cluster_api_provider_hcl.Base.{
  Text, text, ℕ, zero, suc, ◌+◌, ◌%◌, ◌^◌, Bool, List, [], ◌∷◌, ◌++◌, map, Dict, if◌then◌else◌,
  str_eq,
}
use cluster_api_provider_hcl.Exec.{Result, ok, err, panic}
use cluster_api_provider_hcl.Api.{NodeAddress, internal_ip, external_ip, HcloudMachineStatus}
use cluster_api_provider_hcl.Api.Tags.{
  resource_lifecycle_owned, cluster_tag_key, machine_name_tag_key,
}
use cluster_api_provider_hcl.Hcloud.{Ip, Server, NetLib}
use cluster_api_provider_hcl.LoadBalancer.{format_ip}

-- `ip[i] += 1` on bytes; an index out of range is a panic.
unfoldable pub increment : ℕ → Ip → Result Ip
increment i [] = panic
increment zero (b ∷ ip) = ok ((b + 1) % 2 ^ 8 ∷ ip)
increment (suc i) (b ∷ ip) = elim (increment i ip) [
  | ok r ↦ ok (b ∷ r)
  | err e ↦ err e
  | panic ↦ panic
]

unfoldable pub ipv4_addresses : NetLib → Ip → List NodeAddress
unfolding format_ip
ipv4_addresses net ip =
    if str_eq (format_ip net ip) []
    then []
    else record { type = external_ip; address = format_ip net ip } ∷ []

unfoldable pub ipv6_addresses : NetLib → Ip → Result (List NodeAddress)
unfolding format_ip increment
ipv6_addresses net ip =
    if net.is_global_unicast ip
    then elim (increment 15 ip) [
      | ok next ↦ ok (record { type = external_ip; address = format_ip net next } ∷ [])
      | err e ↦ err e
      | panic ↦ panic
    ]
    else ok []

unfoldable pub internal_addresses : NetLib → List Ip → List NodeAddress
unfolding format_ip
internal_addresses net ips =
    map (λ ip. record { type = internal_ip; address = format_ip net ip }) ips

-- `setStatusFromAPI`
unfoldable pub set_status_from_api :
    NetLib → Server → HcloudMachineStatus → Result HcloudMachineStatus
unfolding ipv4_addresses ipv6_addresses internal_addresses
set_status_from_api net server status = elim (ipv6_addresses net server.public_ipv6) [
  | ok ipv6 ↦ ok (record status {
    server_state = server.status;
    addresses =
        ipv4_addresses net server.public_ipv4
        ++ (ipv6 ++ internal_addresses net server.private_net);
  })
  | err e ↦ err e
  | panic ↦ panic
]

-- `createLabels`, of the cluster's name, the machine's name and its role
unfoldable pub create_labels : Text → Text → Bool → Dict Text
create_labels cluster machine is_control_plane =
    (cluster_tag_key cluster, resource_lifecycle_owned)
    ∷ (machine_name_tag_key, machine)
    ∷ (text "machine_type", if is_control_plane then text "control_plane" else text "worker")
    ∷ []
