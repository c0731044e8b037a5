-- ===== src/Scope.antt =====
-- The scopes of pkg/scope: the objects that one reconciliation works on, with the requests made so
-- far, and the ways to make a request.
pub mod FailureDomain
use cluster_api_provider_hcl.Base.{
  Text, text, ℕ, Bool, true, false, Option, none, some, List, [], ◌∷◌, ◌++◌, Dict, put, lookup,
  if◌then◌else◌, str_eq, not, ◌||◌, ◌≡◌, refl,
}
use cluster_api_provider_hcl.Exec.{
  Error, failure, wrapped, bootstrap_data_not_ready, Result, ok, err, Reply, success, refusal, Exec,
  pure, fail, gets, deref, of_result, wrapping, within, modify, ◌>>=◌, ◌>>◌,
}
use cluster_api_provider_hcl.Api.{HcloudCluster, HcloudMachine, HcloudVolume, ApiEndpoint}
use cluster_api_provider_hcl.Hcloud.{Call, event, History, Machine, Env}

-- `clusterv1.Cluster`, with the fields that the controllers read.
pub record Cluster : Type 0 where
  pub name : Text
  pub namespace : Text
  pub control_plane_endpoint : ApiEndpoint
  pub failure_domains : Dict Bool

-- `ClusterScope`
pub record ClusterScope : Type 0 where
  pub cluster : Cluster
  pub hcloud_cluster : HcloudCluster
  pub trace : History

-- `MachineScope`
pub record MachineScope : Type 0 where
  pub cluster_scope : ClusterScope
  pub machine : Machine
  pub hcloud_machine : HcloudMachine

-- `VolumeScope`
pub record VolumeScope : Type 0 where
  pub cluster_scope : ClusterScope
  pub hcloud_volume : HcloudVolume

abbrev pub of_reply {ℓ} : {A : Type ℓ} → Reply A → Result A
of_reply (success a) = ok a
of_reply (refusal e) = err e

-- One request: it is recorded, and its answer depends on the requests before it.
abbrev pub call : {A : Type 0} → Call → (History → Reply A) → Exec ClusterScope A
call c reply s = (of_reply (reply s.trace), record s { trace = c ∷ s.trace })

-- A request whose error the caller inspects itself.
abbrev pub ask : {A : Type 0} → Call → (History → Reply A) → Exec ClusterScope (Reply A)
ask c reply s = (ok (reply s.trace), record s { trace = c ∷ s.trace })

-- `Recorder.Eventf`
abbrev pub eventf : Text → Text → Exec ClusterScope (Unit {0})
eventf type reason s = (ok tt, record s { trace = event type reason ∷ s.trace })

abbrev pub event_normal : Text
event_normal = text "Normal"

abbrev pub event_warning : Text
event_warning = text "Warning"

abbrev pub update_hcloud_cluster : (HcloudCluster → HcloudCluster) → Exec ClusterScope (Unit {0})
update_hcloud_cluster f = modify λ s. record s { hcloud_cluster = f s.hcloud_cluster }

-- The embedded `ClusterScope` of a machine's or a volume's scope.
abbrev pub on_cluster : {A : Type 0} → Exec ClusterScope A → Exec MachineScope A
on_cluster = within (λ t. t.cluster_scope) (λ s t. record t { cluster_scope = s })

abbrev pub on_volume_cluster : {A : Type 0} → Exec ClusterScope A → Exec VolumeScope A
on_volume_cluster = within (λ t. t.cluster_scope) (λ s t. record t { cluster_scope = s })

abbrev pub update_hcloud_machine : (HcloudMachine → HcloudMachine) → Exec MachineScope (Unit {0})
update_hcloud_machine f = modify λ t. record t { hcloud_machine = f t.hcloud_machine }

set_failure_domains : List Text → Dict Bool → Dict Bool
set_failure_domains [] m = m
set_failure_domains (l ∷ ls) m = set_failure_domains ls (put l true m)

-- `ClusterScope.SetStatusLocations`
unfoldable pub set_status_locations : List Text → Text → HcloudCluster → HcloudCluster
unfolding set_failure_domains
set_status_locations locations network_zone c = record c {
  spec = record (c.spec) { locations = locations };
  status = record (c.status) {
    locations = locations;
    failure_domains = set_failure_domains locations [];
    network_zone = network_zone;
  };
}

-- `MachineScope.GetRawBootstrapData`
unfoldable pub get_raw_bootstrap_data : Env → Exec MachineScope Text
get_raw_bootstrap_data env s = elim (s.machine.data_secret_name) [
  | none ↦ fail bootstrap_data_not_ready s
  | some secret_name ↦
      (do
        secret ←
            wrapping (text "failed to retrieve bootstrap data secret for HcloudMachine %s/%s") (
              on_cluster (
                call (Call.get_secret s.hcloud_machine.namespace secret_name)
                  (λ h. env.kube.get_secret h s.hcloud_machine.namespace secret_name)))
        of_result (elim (lookup (text "value") secret) [
          | none ↦
              err (failure (text "error retrieving bootstrap data: secret value key is missing"))
          | some value ↦ ok value
        ]))
        s
]
