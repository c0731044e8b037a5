-- ===== src/Controllers/Volume.antt =====
-- `reconcileDelete` and `reconcileNormal` of controllers/hcloudvolume_controller.go.
pub mod Release
use cluster_api_provider_hcl.Base.{text, none}
use cluster_api_provider_hcl.Exec.{Exec, pure, wrapping, modify, ◌>>◌}
use cluster_api_provider_hcl.Api.{volume_finalizer}
use cluster_api_provider_hcl.Hcloud.{Env}
use cluster_api_provider_hcl.Scope.{VolumeScope}
use cluster_api_provider_hcl.Volume
use cluster_api_provider_hcl.Location
use cluster_api_provider_hcl.Location.{volume_local_scope}
use cluster_api_provider_hcl.Server.{Requeue}
use cluster_api_provider_hcl.Controllers.Finalizers.{add_finalizer, remove_finalizer}

-- `RemoveFinalizer`
unfoldable pub release : Exec VolumeScope Requeue
unfolding remove_finalizer
release = do
  modify λ s. record s {
    hcloud_volume = record (s.hcloud_volume) {
      finalizers = remove_finalizer volume_finalizer s.hcloud_volume.finalizers;
    };
  }
  pure none

-- `reconcileDelete`
unfoldable pub reconcile_delete : Env → Exec VolumeScope Requeue
unfolding release Volume.delete
reconcile_delete env =
    wrapping (text "failed to delete volume for HcloudVolume %s/%s") (Volume.delete env) >> release

-- `reconcileNormal`
unfoldable pub reconcile_normal : Env → Exec VolumeScope Requeue
unfolding add_finalizer Location.reconcile volume_local_scope Volume.reconcile
reconcile_normal env = do
  modify λ s. record s {
    hcloud_volume = record (s.hcloud_volume) {
      finalizers = add_finalizer volume_finalizer s.hcloud_volume.finalizers;
    };
  }
  wrapping (text "failed to reconcile location for HcloudVolume %s/%s")
      (Location.reconcile (volume_local_scope env))
  wrapping (text "failed to reconcile volume for HcloudVolume %s/%s") (Volume.reconcile env)
  pure none
