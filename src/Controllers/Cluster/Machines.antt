-- ===== src/Controllers/Cluster/Machines.antt =====
-- `ListMachines` of pkg/scope/cluster.go.
use cluster_api_provider_hcl.Base.{
  Text, text, none, some, List, [], ◌∷◌, Dict, lookup, put, str_eq, not, ◌||◌, if◌then◌else◌,
}
use cluster_api_provider_hcl.Exec.{Exec, pure, gets, ◌>>=◌}
use cluster_api_provider_hcl.Api.{HcloudMachine}
use cluster_api_provider_hcl.Hcloud.{Call, Machine, Env}
use cluster_api_provider_hcl.Scope.{ClusterScope, call}

abbrev hcloud_machine_kind : Text
hcloud_machine_kind = text "HcloudMachine.cluster-api-provider-hcloud.capihc.com"

-- The first loop: the machines of the cluster by the names of their HcloudMachines.
unfoldable pub index_machines : Text → List Machine → Dict Machine → Dict Machine
unfolding put
index_machines cluster_name [] index = index
index_machines cluster_name (m ∷ machines) index = index_machines cluster_name machines (
    if not (str_eq m.cluster_name cluster_name)
      || not (str_eq m.infrastructure_ref_group_kind hcloud_machine_kind)
    then index
    else put m.infrastructure_ref_name m index)

-- The second loop; the two lists that it builds are one list of pairs.
unfoldable pub match_machines : Dict Machine → List HcloudMachine → List (Machine × HcloudMachine)
unfolding lookup
match_machines index [] = []
match_machines index (hm ∷ hcloud_machines) =
    let rest = match_machines index hcloud_machines in
    elim (lookup hm.name index) [ none ↦ rest | some m ↦ (m, hm) ∷ rest ]

-- `ListMachines`
unfoldable pub list_machines : Env → Exec ClusterScope (List (Machine × HcloudMachine))
unfolding index_machines match_machines
list_machines env = do
  namespace ← gets (λ s. s.hcloud_cluster.namespace)
  cluster_name ← gets (λ s. s.cluster.name)
  machines ← call (Call.list_machines namespace) (λ h. env.kube.list_machines h namespace)
  hcloud_machines ←
      call (Call.list_hcloud_machines namespace) (λ h. env.kube.list_hcloud_machines h namespace)
  pure (match_machines (index_machines cluster_name machines []) hcloud_machines)
