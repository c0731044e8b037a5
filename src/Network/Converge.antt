-- ===== src/Network/Converge.antt =====
-- What becomes of a created network.
use cluster_api_provider_hcl.Base.{
  Text, true, false, some, List, [], ◌∷◌, str_eq_refl, ◌≡◌, refl, ◌∙◌,
}
use cluster_api_provider_hcl.Exec.{ok, success}
use cluster_api_provider_hcl.Api.{HcloudNetworkSpec, is_zero}
use cluster_api_provider_hcl.Hcloud.{Call, Network, NetworkCreateOpts, NetLib, Env}
use cluster_api_provider_hcl.Scope.{ClusterScope}
use cluster_api_provider_hcl.Network.{
  api_to_status, create_opts, is_owned, reconcile, create_missing,
}
use cluster_api_provider_hcl.Network.Safety.{
  listing, listed, effective_spec, with_spec, with_status, network_adopted, reconcile_absent,
  create_opts_labels,
}

-- A network that the cloud returns with the labels it was created with passes the ownership test
-- of `Delete`, and bears the cluster's name in its options.
pub network_created_owned :
    (net : NetLib) (name : Text) (spec : HcloudNetworkSpec) (opts : NetworkCreateOpts) (n : Network)
    → create_opts net name spec ≡ ok opts
    → n.labels ≡ opts.labels
    → (is_owned name (api_to_status n) ≡ true) × (opts.name ≡ name)
unfolding is_owned api_to_status
network_created_owned net name spec opts n h same =
    let l = create_opts_labels net name spec opts h in
    (rw same (rw (l.1, is_owned) (str_eq_refl _)), l.0)

-- The scope after a successful creation.
abbrev after_create : NetworkCreateOpts → Network → ClusterScope → ClusterScope
after_create opts n s =
    with_status (some (api_to_status n)) (Call.create_network opts ∷ listing s ∷ s.trace)
      (with_spec s)

reconcile_created :
    (env : Env) (s : ClusterScope) (opts : NetworkCreateOpts) (n : Network)
    → is_zero (effective_spec s) ≡ false
    → listed env s ≡ success []
    → create_opts env.net s.hcloud_cluster.name (effective_spec s) ≡ ok opts
    → env.hcloud.create_network (listing s ∷ s.trace) opts ≡ success n
    → reconcile env s ≡ (ok tt, after_create opts n s)
reconcile_created env s opts n z h e c =
    reconcile_absent env s z h ∙ unfold create_missing in rw e (rw c)

-- When the cloud lists no network and creates one, the run succeeds and stores its status; if the
-- cloud then lists that network first, the next run creates nothing and leaves the cluster as it is.
pub network_converges :
    (env : Env) (s : ClusterScope) (opts : NetworkCreateOpts) (n : Network) (ns : List Network)
    → is_zero (effective_spec s) ≡ false
    → listed env s ≡ success []
    → create_opts env.net s.hcloud_cluster.name (effective_spec s) ≡ ok opts
    → env.hcloud.create_network (listing s ∷ s.trace) opts ≡ success n
    → listed env (reconcile env s).1 ≡ success (n ∷ ns)
    → let s' = (reconcile env s).1 in
      ((reconcile env s).0 ≡ ok tt)
      × (s'.hcloud_cluster.status.network ≡ some (api_to_status n))
      × (reconcile env s' ≡ (ok tt, record s' { trace = listing s' ∷ s'.trace }))
network_converges env s opts n ns z h e c next =
    let first = reconcile_created env s opts n z h e c in
    rw first (refl, refl, network_adopted env (after_create opts n s) n ns z (rw first at next))
