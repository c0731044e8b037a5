-- ===== src/Volume.antt =====
-- The volume service (pkg/cloud/resources/volume/volume.go). A quantity is its value in bytes.
pub mod Reclaim
pub mod Size
pub mod Create
pub mod Gone
mod Tests
use cluster_api_provider_hcl.Base.{
  Text, text, ℕ, ◌*◌, ◌/◌, Bool, true, false, Option, none, some, List, [], ◌∷◌, ◌++◌, Dict,
  if◌then◌else◌, str_eq, not, leb,
}
use cluster_api_provider_hcl.Exec.{
  Error, failure, Result, ok, err, panic, Exec, pure, fail, gets, deref, of_result, wrapping,
  modify, ◌>>=◌, ◌>>◌,
}
use cluster_api_provider_hcl.Api.{
  HcloudVolume, HcloudVolumeSpec, HcloudVolumeStatus, reclaim_delete, reclaim_retain,
}
use cluster_api_provider_hcl.Api.Tags.{
  resource_lifecycle_owned, cluster_tag_key, labels_to_label_selector,
}
use cluster_api_provider_hcl.Hcloud.{Call, Volume, VolumeCreateOpts, Env}
use cluster_api_provider_hcl.Scope.{ClusterScope, VolumeScope, call, on_volume_cluster}

abbrev pub gib : ℕ
gib = 1073741824

-- `resource.MustParse("10Gi")`
abbrev pub volume_minimum_size : ℕ
volume_minimum_size = 10737418240

-- `apiToStatus`
unfoldable pub api_to_status : Volume → HcloudVolumeStatus
api_to_status v = record {
  location = v.location;
  volume_id = some v.id;
  size = some (v.size * 1024 * 1024 * 1024);
}

-- `Service.name`
unfoldable pub name : VolumeScope → Text
name s = s.cluster_scope.hcloud_cluster.name ++ (text "-" ++ s.hcloud_volume.name)

-- `Service.labels`
unfoldable pub labels : VolumeScope → Dict Text
labels s = (cluster_tag_key s.cluster_scope.hcloud_cluster.name, resource_lifecycle_owned) ∷ []

-- The three defaults at the head of `Reconcile`; `Cmp(minimum) < 1` is "at most the minimum".
unfoldable pub set_size : Option ℕ → ℕ
set_size none = volume_minimum_size
set_size (some size) = if leb size volume_minimum_size then volume_minimum_size else size

unfoldable pub set_defaults : HcloudVolumeSpec → HcloudVolumeSpec
unfolding set_size
set_defaults spec = record spec {
  size = some (set_size spec.size);
  reclaim_policy = if str_eq spec.reclaim_policy [] then reclaim_retain else spec.reclaim_policy;
}

-- The loop of `actualStatus`: the first volume of that name.
unfoldable pub find_volume : Text → List Volume → Option HcloudVolumeStatus
unfolding api_to_status
find_volume n [] = none
find_volume n (v ∷ vs) = if str_eq v.name n then some (api_to_status v) else find_volume n vs

-- `Service.actualStatus`
unfoldable pub actual_status : Env → Exec VolumeScope (Option HcloudVolumeStatus)
unfolding find_volume labels name
actual_status env = do
  selector ← gets (λ s. labels_to_label_selector (labels s))
  volumes ←
      on_volume_cluster
        (call (Call.list_volumes selector) (λ h. env.hcloud.list_volumes h selector))
  gets (λ s. find_volume (name s) volumes)

-- `Spec.Size.Value()`; the defaults have set the size.
abbrev pub size_value : Option ℕ → ℕ
size_value none = 0
size_value (some size) = size

-- The options of `createVolume`
unfoldable pub create_opts : VolumeScope → VolumeCreateOpts
unfolding labels name
create_opts s = record {
  name = name s;
  labels = labels s;
  location = s.hcloud_volume.spec.location;
  format = text "ext4";
  automount = false;
  size = size_value s.hcloud_volume.spec.size / 1024 / 1024 / 1024;
}

abbrev pub set_status : HcloudVolumeStatus → VolumeScope → VolumeScope
set_status status s = record s { hcloud_volume = record (s.hcloud_volume) { status = status } }

-- `Service.createVolume`
unfoldable pub create_volume : Env → Exec VolumeScope (Unit {0})
unfolding create_opts api_to_status
create_volume env = do
  opts ← gets create_opts
  v ← on_volume_cluster (call (Call.create_volume opts) (λ h. env.hcloud.create_volume h opts))
  modify (set_status (api_to_status v))

unfoldable pub apply_defaults : Exec VolumeScope (Unit {0})
unfolding set_defaults
apply_defaults = modify λ s. record s {
  hcloud_volume = record (s.hcloud_volume) { spec = set_defaults s.hcloud_volume.spec };
}

-- `Service.Reconcile`
unfoldable pub reconcile : Env → Exec VolumeScope (Unit {0})
unfolding apply_defaults actual_status create_volume
reconcile env = do
  apply_defaults
  status ← wrapping (text "failed to refresh volume") (actual_status env)
  elim status [
    | none ↦ wrapping (text "failed to create volume") (create_volume env)
    | some found ↦ modify (set_status found)
  ]

-- `Service.deleteVolume`
unfoldable pub delete_volume : Env → ℕ → Exec VolumeScope (Unit {0})
delete_volume env id =
    on_volume_cluster (call (Call.delete_volume id) (λ h. env.hcloud.delete_volume h id))

-- `Service.Delete`
unfoldable pub delete : Env → Exec VolumeScope (Unit {0})
unfolding actual_status delete_volume
delete env = do
  status ← wrapping (text "failed to refresh volume") (actual_status env)
  policy ← gets (λ s. s.hcloud_volume.spec.reclaim_policy)
  elim status [
    | none ↦ pure tt
    | some found ↦
        if not (str_eq policy reclaim_delete)
        then pure tt
        else do id ← deref found.volume_id; delete_volume env id
  ]
