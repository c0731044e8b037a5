-- ===== src/Controllers/Volume/Release.antt =====
-- When the volume controller gives up its finalizer.
use cluster_api_provider_hcl.Base.{
  text, false, none, mem_text, ◌≡◌, ◌≢◌, ◌⊎◌, inl, inr, refl, arith,
}
use cluster_api_provider_hcl.Exec.{ok, wrapping}
use cluster_api_provider_hcl.Exec.Ensures.{bind-ok, wrapping-ok}
use cluster_api_provider_hcl.Exec.Keeps.{
  Keeps, KeepsUnless, Keeps-wrapping, KeepsUnless-bind, is_done_or_not,
}
use cluster_api_provider_hcl.Api.{volume_finalizer}
use cluster_api_provider_hcl.Hcloud.{Env}
use cluster_api_provider_hcl.Scope.{VolumeScope}
use cluster_api_provider_hcl.Volume
use cluster_api_provider_hcl.Volume.Gone.{Reclaimed, delete-Reclaimed}
use cluster_api_provider_hcl.Controllers.Finalizers.{remove_finalizer-mem}
use cluster_api_provider_hcl.Controllers.Volume.{release, reconcile_delete}

delete-Keeps : (env : Env) → Keeps (λ s. s.hcloud_volume.finalizers) (Volume.delete env)
unfolding Volume.delete Volume.actual_status Volume.delete_volume
delete-Keeps env = record { at = λ s. ground arith }

reconcile_delete-Keeps :
    (env : Env) → KeepsUnless none (λ s. s.hcloud_volume.finalizers) (reconcile_delete env)
unfolding reconcile_delete
reconcile_delete-Keeps env =
    KeepsUnless-bind none
      (wrapping (text "failed to delete volume for HcloudVolume %s/%s") (Volume.delete env))
      (λ u. release) (Keeps-wrapping _ (Volume.delete env) (delete-Keeps env))
      (λ u. record { at = λ s n. absurd (n (unfold release in refl)) })

-- When `reconcileDelete` ends without an error.
volume_deleted :
    (env : Env) (s : VolumeScope)
    → (reconcile_delete env s).0 ≡ ok none
    → (mem_text volume_finalizer (reconcile_delete env s).1.hcloud_volume.finalizers ≡ false)
      × Reclaimed env s
volume_deleted env s h =
    let message = text "failed to delete volume for HcloudVolume %s/%s" in
    let (u, q, k, e) =
      bind-ok (wrapping message (Volume.delete env)) (λ u. release) s none
        (unfold reconcile_delete in h) in
    (
      unfold reconcile_delete in
          rw e (
            unfold release in
            remove_finalizer-mem volume_finalizer (Volume.delete env s).1.hcloud_volume.finalizers),
      delete-Reclaimed env s (wrapping-ok message (Volume.delete env) s tt q),
    )

-- `reconcileDelete` of a volume ends without an error, and then its finalizer is gone and the cloud
-- has listed its volumes: none of them bears the volume's name, or the reclaim policy is not
-- `Delete`, or the cloud accepted the deletion of one that bears the name. Or it ends in another way,
-- and then the volume has the finalizers that it had.
pub volume_released :
    (env : Env) (s : VolumeScope)
    → (((reconcile_delete env s).0 ≡ ok none)
        × (mem_text volume_finalizer (reconcile_delete env s).1.hcloud_volume.finalizers ≡ false)
        × Reclaimed env s)
      ⊎ (((reconcile_delete env s).0 ≢ ok none)
          × ((reconcile_delete env s).1.hcloud_volume.finalizers ≡ s.hcloud_volume.finalizers))
volume_released env s = elim (is_done_or_not (reconcile_delete env s).0) [
  | inl done ↦ let (gone, reclaimed) = volume_deleted env s done in inl (done, gone, reclaimed)
  | inr other ↦ inr (other, (reconcile_delete-Keeps env).at s other)
]
