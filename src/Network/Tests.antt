-- ===== src/Network/Tests.antt =====
-- The network service at concrete inputs.
use cluster_api_provider_hcl.Base.{text, false, some, [], ◌∷◌, ◌≡◌, refl}
use cluster_api_provider_hcl.Exec.{ok, success}
use cluster_api_provider_hcl.Hcloud.{NetworkCreateOpts, Env}
use cluster_api_provider_hcl.Api.{is_zero}
use cluster_api_provider_hcl.Network.{
  reconcile, delete, create_opts, api_to_status, defaults, labels, parse_subnets,
}
use cluster_api_provider_hcl.Network.Safety.{
  Deleted, Reconciled, listing, listed, effective_spec, network_delete_owned_only,
  network_created_once,
}
use cluster_api_provider_hcl.Network.Converge.{network_converges}
use cluster_api_provider_hcl.Fixtures.{
  client_of, the_network, empty_cloud, env_of, net_lib, demo_scope,
}

abbrev with_network : Env
with_network = env_of (record empty_cloud { networks = the_network ∷ [] })

-- A cloud that lists the network once it has been asked to create one.
abbrev growing : Env
growing = record (env_of empty_cloud) {
  hcloud = record (client_of empty_cloud) {
    list_networks = λ h selector. elim h [ [] ↦ success [] | c ∷ cs ↦ success (the_network ∷ []) ];
  };
}

network_delete_owned_only_example :
    Deleted with_network demo_scope (delete with_network demo_scope).1.trace
    × ((delete with_network demo_scope).1.hcloud_cluster ≡ demo_scope.hcloud_cluster)
network_delete_owned_only_example = network_delete_owned_only with_network demo_scope

network_created_once_example :
    Reconciled (env_of empty_cloud) demo_scope (reconcile (env_of empty_cloud) demo_scope).1.trace
network_created_once_example = network_created_once (env_of empty_cloud) demo_scope

spec_is_set : is_zero (effective_spec demo_scope) ≡ false
unfolding is_zero defaults text
spec_is_set = refl

abbrev new_opts : NetworkCreateOpts
new_opts = record {
  name = text "demo";
  ip_range = text "10.0.0.0/16";
  labels = the_network.labels;
  subnets = record { ip_range = text "10.0.0.0/24"; network_zone = text "eu-central" } ∷ [];
}

new_opts_created : create_opts net_lib (text "demo") (effective_spec demo_scope) ≡ ok new_opts
unfolding create_opts defaults labels parse_subnets
new_opts_created = refl

listed_after : listed growing (reconcile growing demo_scope).1 ≡ success (the_network ∷ [])
unfolding reconcile create_opts defaults labels parse_subnets is_zero text
listed_after = refl

network_converges_example :
    let s' = (reconcile growing demo_scope).1 in
    ((reconcile growing demo_scope).0 ≡ ok tt)
    × (s'.hcloud_cluster.status.network ≡ some (api_to_status the_network))
    × (reconcile growing s' ≡ (ok tt, record s' { trace = listing s' ∷ s'.trace }))
network_converges_example =
    network_converges growing demo_scope new_opts the_network [] spec_is_set refl new_opts_created
      refl listed_after
