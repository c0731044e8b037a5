-- ===== src/Volume/Tests.antt =====
-- The volume service at concrete inputs.
use cluster_api_provider_hcl.Base.{text, some, [], ◌∷◌}
use cluster_api_provider_hcl.Api.{HcloudVolumeSpec}
use cluster_api_provider_hcl.Hcloud.{Env}
use cluster_api_provider_hcl.Volume.{apply_defaults, create_opts, reconcile, delete}
use cluster_api_provider_hcl.Volume.Reclaim.{Deleted, trace, volume_delete_reclaims_only}
use cluster_api_provider_hcl.Volume.Create.{Reconciled, volume_created_once}
use cluster_api_provider_hcl.Volume.Size.{SizeFor, volume_size}
use cluster_api_provider_hcl.Fixtures.{the_volume, empty_cloud, env_of, volume_scope}

abbrev with_volume : Env
with_volume = env_of (record empty_cloud { volumes = the_volume ∷ [] })

abbrev small : HcloudVolumeSpec
small = record { location = text "nbg1"; size = some 5; reclaim_policy = [] }

volume_delete_reclaims_only_example :
    Deleted with_volume volume_scope (trace (delete with_volume volume_scope).1)
volume_delete_reclaims_only_example = volume_delete_reclaims_only with_volume volume_scope

volume_created_once_example :
    Reconciled
      (env_of empty_cloud)
      volume_scope
      (trace (reconcile (env_of empty_cloud) volume_scope).1)
volume_created_once_example = volume_created_once (env_of empty_cloud) volume_scope

volume_size_example :
    SizeFor volume_scope.hcloud_volume.spec.size (create_opts (apply_defaults volume_scope).1).size
volume_size_example = volume_size volume_scope
