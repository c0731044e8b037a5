-- ===== src/Controllers/Cluster/Applied.antt =====
-- When the cluster controller takes the manifests for applied.
use cluster_api_provider_hcl.Base.{
  Text, text, Bool, true, false, some, ◌∷◌, str_eq_refl, if◌then◌else◌, ◌≡◌, inl, inr, arith,
  Bool-cases, Option-cases,
}
use cluster_api_provider_hcl.Exec.{
  ok, success, Exec, fail, wrapping, no_ready_api_server, ◌>>=◌, ◌>>◌,
}
use cluster_api_provider_hcl.Exec.Ensures.{Ensures, Ensures-fail, Ensures-bind, bind-ok}
use cluster_api_provider_hcl.Api.{ApiEndpoint, HcloudCluster}
use cluster_api_provider_hcl.Hcloud.{Call, Env}
use cluster_api_provider_hcl.Scope.{ClusterScope, call, eventf, event_normal, update_hcloud_cluster}
use cluster_api_provider_hcl.Controllers.Cluster.{
  list_machines, needs_apply, scan_machines, apply_manifests, reconcile_manifests,
}

-- What holds once the manifests of a hash have been applied.
abbrev UpToDate : Text → ClusterScope → Type 0
UpToDate hash s = needs_apply hash s.hcloud_cluster.status.manifests ≡ false

abbrev set_manifests : Text → HcloudCluster → HcloudCluster
set_manifests hash c = record c {
  status = record (c.status) {
    manifests = some (record { initialized = some true; applied_hash = some hash });
  };
}

stored : (hash : Text) → Ensures tt (UpToDate hash) (update_hcloud_cluster (set_manifests hash))
stored hash = record { at = λ s h. unfold needs_apply in rw (str_eq_refl hash) }

applied : (env : Env) (hash : Text) → Ensures tt (UpToDate hash) (apply_manifests env hash)
unfolding apply_manifests
applied env hash =
    Ensures-bind
      (wrapping (text "failed to list machines for HcloudCluster %s/%s") (list_machines env))
      (λ machines. scan_machines env machines >>= after)
      λ machines. Ensures-bind (scan_machines env machines) after after_lem
  where
    after : Bool → Exec ClusterScope (Unit {0})
    after found =
        if found
        then wrapping (text "error applying manifests to first API server")
            (call Call.apply_manifests (λ h. env.kube.apply_manifests h))
          >> update_hcloud_cluster (set_manifests hash)
        else fail no_ready_api_server

    after_lem : (found : Bool) → Ensures tt (UpToDate hash) (after found)
    after_lem true =
        Ensures-bind
          (wrapping (text "error applying manifests to first API server")
            (call Call.apply_manifests (λ h. env.kube.apply_manifests h)))
          (λ u. update_hcloud_cluster (set_manifests hash)) (λ u. stored hash)
    after_lem false = Ensures-fail no_ready_api_server

abbrev apply_and_note : Env → Text → Exec ClusterScope (Unit {0})
apply_and_note env hash = apply_manifests env hash >> eventf event_normal (text "ManifestsApplied")

apply_and_note_lem :
    (env : Env) (hash : Text) (s : ClusterScope)
    → (apply_and_note env hash s).0 ≡ ok tt
    → UpToDate hash (apply_and_note env hash s).1
apply_and_note_lem env hash s h =
    let (u, q, k, f) =
      bind-ok (apply_manifests env hash) (λ u. eventf event_normal (text "ManifestsApplied")) s tt
        h in
    rw f ((applied env hash).at s q)

module _ (env : Env) (s : ClusterScope) (hash : Text)
    (e : env.kube.manifests_hash s.trace ≡ success hash) (endpoint : ApiEndpoint)
    (given : s.hcloud_cluster.spec.control_plane_endpoint ≡ some endpoint) where
  run_current :
      needs_apply hash s.hcloud_cluster.status.manifests ≡ false
      → reconcile_manifests env s ≡ (ok tt, record s { trace = Call.manifests_hash ∷ s.trace })
  unfolding reconcile_manifests
  run_current current = rw given (rw e (rw current))

  run_needed :
      needs_apply hash s.hcloud_cluster.status.manifests ≡ true
      → reconcile_manifests env s
        ≡ apply_and_note env hash (record s { trace = Call.manifests_hash ∷ s.trace })
  unfolding reconcile_manifests
  run_needed needed = rw given (rw e (rw needed))

-- When `reconcileManifests` succeeds, the status of the cluster says that the manifests of the
-- expected hash are applied, so that the same hash is not applied again.
pub reconcile_manifests_applied :
    (env : Env) (s : ClusterScope) (hash : Text)
    → env.kube.manifests_hash s.trace ≡ success hash
    → (reconcile_manifests env s).0 ≡ ok tt
    → needs_apply hash (reconcile_manifests env s).1.hcloud_cluster.status.manifests ≡ false
reconcile_manifests_applied env s hash e h =
    elim (Option-cases s.hcloud_cluster.spec.control_plane_endpoint) [
      | inl nil ↦ absurd (unfold reconcile_manifests in ground arith)
      | inr (endpoint, given) ↦
          elim (Bool-cases (needs_apply hash s.hcloud_cluster.status.manifests)) [
            | inr current ↦ rw (run_current env s hash e endpoint given current) current
            | inl needed ↦
                let run = run_needed env s hash e endpoint given needed in
                rw run (
                  apply_and_note_lem env hash (record s { trace = Call.manifests_hash ∷ s.trace })
                    (rw run at h))
          ]
    ]
