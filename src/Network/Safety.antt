-- ===== src/Network/Safety.antt =====
-- Which networks the service creates and deletes.
use cluster_api_provider_hcl.Base.{
  Text, true, false, Option, none, some, List, [], ◌∷◌, lookup, str_eq_iff, str_eq_refl, ◌≡◌, ◌⊎◌,
  inl, inr, refl, arith, Bool-cases, Option-cases,
}
use cluster_api_provider_hcl.Exec.{Error, Result, ok, err, panic, Reply, success, refusal}
use cluster_api_provider_hcl.Api.{HcloudNetworkSpec, HcloudNetworkStatus, is_zero}
use cluster_api_provider_hcl.Api.Tags.{
  resource_lifecycle_owned, cluster_tag_key, labels_to_label_selector,
}
use cluster_api_provider_hcl.Hcloud.{Call, History, Network, NetworkCreateOpts, NetLib, Env}
use cluster_api_provider_hcl.Scope.{ClusterScope}
use cluster_api_provider_hcl.Network.{
  api_to_status, labels, create_opts, is_owned, defaults, reconcile, delete, ensure_spec,
  create_missing,
}

-- The request that looks for the networks of a cluster.
abbrev pub listing : ClusterScope → Call
listing s = Call.list_networks (labels_to_label_selector (labels s.hcloud_cluster.name))

abbrev pub listed : Env → ClusterScope → Reply (List Network)
listed env s =
    env.hcloud.list_networks s.trace (labels_to_label_selector (labels s.hcloud_cluster.name))

is_owned-lookup :
    (name : Text) (n : Network)
    → is_owned name (api_to_status n) ≡ true
    → lookup (cluster_tag_key name) n.labels ≡ some resource_lifecycle_owned
unfolding is_owned api_to_status
is_owned-lookup name n h = elim (Option-cases (lookup (cluster_tag_key name) n.labels)) [
  | inl missing ↦ ground arith
  | inr (lifecycle, e) ↦ ground (arith, str_eq_iff lifecycle resource_lifecycle_owned)
]

-- What `Delete` may have done, by the requests it made.
abbrev pub Deleted : Env → ClusterScope → History → Type 0
Deleted env s trace =
    (trace ≡ listing s ∷ s.trace)
    ⊎ ((n : Network) × (ns : List Network) × (listed env s ≡ success (n ∷ ns))
        × (lookup (cluster_tag_key s.hcloud_cluster.name) n.labels ≡ some resource_lifecycle_owned)
        × (trace ≡ Call.delete_network n.id ∷ listing s ∷ s.trace))

delete_found :
    (env : Env) (s : ClusterScope) (n : Network) (ns : List Network)
    → listed env s ≡ success (n ∷ ns)
    → Deleted env s (delete env s).1.trace
unfolding delete api_to_status
delete_found env s n ns h = elim (Bool-cases (is_owned s.hcloud_cluster.name (api_to_status n))) [
  | inl owned ↦ inr (n, ns, h, is_owned-lookup s.hcloud_cluster.name n owned, rw h (rw owned))
  | inr foreign ↦ inl (rw h (rw foreign))
]

-- `Delete` looks for the networks with the cluster's tag, and deletes at most the first of them,
-- only if that network's own labels say that the cluster owns it; the cluster object is unchanged.
pub network_delete_owned_only :
    (env : Env) (s : ClusterScope)
    → Deleted env s (delete env s).1.trace × ((delete env s).1.hcloud_cluster ≡ s.hcloud_cluster)
network_delete_owned_only env s = (deleted (listed env s) refl, unfold delete in ground arith)
  where
    deleted : (r : Reply (List Network)) → listed env s ≡ r → Deleted env s (delete env s).1.trace
    deleted (refusal e) h = inl (unfold delete in rw h)
    deleted (success []) h = inl (unfold delete in rw h)
    deleted (success (n ∷ ns)) h = delete_found env s n ns h

-- The spec that `Reconcile` works on.
abbrev pub effective_spec : ClusterScope → HcloudNetworkSpec
effective_spec s = elim (s.hcloud_cluster.spec.network) [
  | none ↦ defaults s.hcloud_cluster.status.network_zone
  | some spec ↦ spec
]

-- What `Reconcile` may have asked of the cloud.
abbrev pub Reconciled : Env → ClusterScope → History → Type 0
Reconciled env s trace =
    (trace ≡ s.trace)
    ⊎ (trace ≡ listing s ∷ s.trace)
    ⊎ ((opts : NetworkCreateOpts) × (listed env s ≡ success [])
        × (create_opts env.net s.hcloud_cluster.name (effective_spec s) ≡ ok opts)
        × (trace ≡ Call.create_network opts ∷ listing s ∷ s.trace))

pub create_opts_labels :
    (net : NetLib) (name : Text) (spec : HcloudNetworkSpec) (opts : NetworkCreateOpts)
    → create_opts net name spec ≡ ok opts
    → (opts.name ≡ name)
      × (lookup (cluster_tag_key name) opts.labels ≡ some resource_lifecycle_owned)
unfolding create_opts lookup
create_opts_labels net name spec opts h = ground (arith, str_eq_refl (cluster_tag_key name))

-- The scope once the spec's network is set.
abbrev pub with_spec : ClusterScope → ClusterScope
with_spec s = record s {
  hcloud_cluster = record (s.hcloud_cluster) {
    spec = record (s.hcloud_cluster.spec) { network = some (effective_spec s) };
  };
}

-- The scope with a status of the network and some requests.
abbrev pub with_status : Option HcloudNetworkStatus → History → ClusterScope → ClusterScope
with_status status trace s = record s {
  hcloud_cluster = record (s.hcloud_cluster) {
    status = record (s.hcloud_cluster.status) { network = status };
  };
  trace = trace;
}

some_eta :
    (s : ClusterScope) (spec : HcloudNetworkSpec)
    → s.hcloud_cluster.spec.network ≡ some spec
    → ensure_spec s ≡ (ok (effective_spec s), with_spec s)
unfolding ensure_spec
some_eta s spec e = ground arith

ensure_spec_run : (s : ClusterScope) → ensure_spec s ≡ (ok (effective_spec s), with_spec s)
ensure_spec_run s = elim (Option-cases s.hcloud_cluster.spec.network) [
  | inl e ↦ unfold ensure_spec in ground arith
  | inr (spec, e) ↦ some_eta s spec e
]

-- A network that the cloud lists is adopted: its status is stored and nothing is created.
pub network_adopted :
    (env : Env) (s : ClusterScope) (n : Network) (ns : List Network)
    → is_zero (effective_spec s) ≡ false
    → listed env s ≡ success (n ∷ ns)
    → reconcile env s
      ≡ (ok tt, with_status (some (api_to_status n)) (listing s ∷ s.trace) (with_spec s))
unfolding reconcile
network_adopted env s n ns z h = rw (ensure_spec_run s) (rw z (rw h))

-- Without a network of the cluster one is created.
pub reconcile_absent :
    (env : Env) (s : ClusterScope)
    → is_zero (effective_spec s) ≡ false
    → listed env s ≡ success []
    → reconcile env s
      ≡ create_missing env (effective_spec s) (with_status none (listing s ∷ s.trace) (with_spec s))
unfolding reconcile
reconcile_absent env s z h = rw (ensure_spec_run s) (rw z (rw h))

create_missing_trace :
    (env : Env) (spec : HcloudNetworkSpec) (s : ClusterScope)
    → ((create_missing env spec s).1.trace ≡ s.trace)
      ⊎ ((opts : NetworkCreateOpts) × (create_opts env.net s.hcloud_cluster.name spec ≡ ok opts)
          × ((create_missing env spec s).1.trace ≡ Call.create_network opts ∷ s.trace))
create_missing_trace env spec s = go (create_opts env.net s.hcloud_cluster.name spec) refl
  where
    go :
        (r : Result NetworkCreateOpts)
        → create_opts env.net s.hcloud_cluster.name spec ≡ r
        → ((create_missing env spec s).1.trace ≡ s.trace)
          ⊎ ((opts : NetworkCreateOpts) × (create_opts env.net s.hcloud_cluster.name spec ≡ ok opts)
              × ((create_missing env spec s).1.trace ≡ Call.create_network opts ∷ s.trace))
    go (err e) h = inl (unfold create_missing in rw h)
    go panic h = inl (unfold create_missing in rw h)
    go (ok opts) h = inr (opts, h, unfold create_missing in rw h (ground arith))

reconcile_failed :
    (env : Env) (s : ClusterScope) (e : Error)
    → is_zero (effective_spec s) ≡ false
    → listed env s ≡ refusal e
    → (reconcile env s).1.trace ≡ listing s ∷ s.trace
unfolding reconcile
reconcile_failed env s e z h = rw (ensure_spec_run s) (rw z (rw h))

reconcile_none_requested :
    (env : Env) (s : ClusterScope)
    → is_zero (effective_spec s) ≡ true
    → (reconcile env s).1.trace ≡ s.trace
unfolding reconcile
reconcile_none_requested env s z = rw (ensure_spec_run s) (rw z)

-- `Reconcile` creates at most one network, only after the cloud has listed none with the cluster's
-- tag, with the options that the spec gives.
pub network_created_once :
    (env : Env) (s : ClusterScope) → Reconciled env s (reconcile env s).1.trace
network_created_once env s = elim (Bool-cases (is_zero (effective_spec s))) [
  | inl z ↦ inl (reconcile_none_requested env s z)
  | inr z ↦ inr (go (listed env s) refl z)
]
  where
    go :
        (r : Reply (List Network))
        → listed env s ≡ r
        → is_zero (effective_spec s) ≡ false
        → ((reconcile env s).1.trace ≡ listing s ∷ s.trace)
          ⊎ ((opts : NetworkCreateOpts) × (listed env s ≡ success [])
              × (create_opts env.net s.hcloud_cluster.name (effective_spec s) ≡ ok opts)
              × ((reconcile env s).1.trace ≡ Call.create_network opts ∷ listing s ∷ s.trace))
    go (refusal e) h z = inl (reconcile_failed env s e z h)
    go (success (n ∷ ns)) h z = inl (rw (network_adopted env s n ns z h))
    go (success []) h z =
        rw (reconcile_absent env s z h)
          (elim (create_missing_trace env (effective_spec s)
            (with_status none (listing s ∷ s.trace) (with_spec s))) [
              | inl same ↦ inl same
              | inr (opts, e, t) ↦ inr (opts, h, e, t)
            ])
