-- ===== src/Location/Reconcile.antt =====
-- `Service.Reconcile` of the locations, on a cluster.
use cluster_api_provider_hcl.Base.{
  Text, text, ◌≤◌, false, List, [], ◌∷◌, length, ◌≡◌, ◌≢◌, refl, sym, ap, ◌∙◌, arith,
}
use cluster_api_provider_hcl.Exec.{Result, ok, err, panic, success}
use cluster_api_provider_hcl.Api.{HcloudCluster}
use cluster_api_provider_hcl.Api.Webhook.{
  invalid, cluster_object, insert_all, set_equal, validate_cluster_update,
}
use cluster_api_provider_hcl.Hcloud.{Call, Location, Env}
use cluster_api_provider_hcl.Scope.{ClusterScope, set_status_locations}
use cluster_api_provider_hcl.Location.{resolve, reconcile, cluster_local_scope}
use cluster_api_provider_hcl.Location.Resolve.{DistinctNames, resolve_sound, resolve_stable}

-- The scope after a successful run.
abbrev placed : List Text × Text → ClusterScope → ClusterScope
placed r s = record s {
  trace = Call.list_location ∷ s.trace;
  hcloud_cluster = set_status_locations r.0 r.1 s.hcloud_cluster;
}

-- The run on a cluster, given what `resolve` says: a request, then the new cluster or the error.
abbrev outcome : Result (List Text × Text) → ClusterScope → Result (Unit {0}) × ClusterScope
outcome (ok r) s = (ok tt, placed r s)
outcome (err e) s = (err e, record s { trace = Call.list_location ∷ s.trace })
outcome panic s = (panic, record s { trace = Call.list_location ∷ s.trace })

reconcile_run :
    (env : Env) (s : ClusterScope) (all : List Location)
    → env.hcloud.list_location s.trace ≡ success all
    → reconcile (cluster_local_scope env) s
      ≡ outcome (resolve all s.hcloud_cluster.spec.locations) s
unfolding reconcile cluster_local_scope
reconcile_run env s all h = rw h (ground arith)

outcome_ok :
    (x : Result (List Text × Text)) (s : ClusterScope)
    → (outcome x s).0 ≡ ok tt
    → (r : List Text × Text) × (x ≡ ok r)
outcome_ok (ok r) s o = (r, refl)
outcome_ok (err e) s o = cc
outcome_ok panic s o = cc

module _ (env : Env) (s : ClusterScope) (all : List Location) where
  reconcile-placed :
      (r : List Text × Text)
      → env.hcloud.list_location s.trace ≡ success all
      → resolve all s.hcloud_cluster.spec.locations ≡ ok r
      → reconcile (cluster_local_scope env) s ≡ (ok tt, placed r s)
  reconcile-placed r h e = reconcile_run env s all h ∙ rw e

  reconcile_resolves :
      env.hcloud.list_location s.trace ≡ success all
      → (reconcile (cluster_local_scope env) s).0 ≡ ok tt
      → (r : List Text × Text) × (resolve all s.hcloud_cluster.spec.locations ≡ ok r)
  reconcile_resolves h o =
      outcome_ok (resolve all s.hcloud_cluster.spec.locations) s
        (sym (ap (λ (x : Result (Unit {0}) × ClusterScope). x.0) (reconcile_run env s all h)) ∙ o)

-- Once a cluster has its locations, a second run with the same answer of the cloud succeeds and
-- changes nothing of the cluster.
pub locations_stable :
    (env : Env) (s : ClusterScope) (all : List Location)
    → DistinctNames all
    → env.hcloud.list_location s.trace ≡ success all
    → env.hcloud.list_location (Call.list_location ∷ s.trace) ≡ success all
    → (reconcile (cluster_local_scope env) s).0 ≡ ok tt
    → let s' = (reconcile (cluster_local_scope env) s).1 in
      let again = reconcile (cluster_local_scope env) s' in
      (again.0 ≡ ok tt) × (again.1.hcloud_cluster ≡ s'.hcloud_cluster)
locations_stable env s all d h h' o =
    let (r, e) = reconcile_resolves env s all h o in
    rw (reconcile-placed env s all r h e) (
      rw
        (reconcile-placed env (placed r s) all r h' (
          unfold set_status_locations in
          (resolve_stable all s.hcloud_cluster.spec.locations r.0 r.1 d e)))
        (refl, unfold set_status_locations in refl))

length-insert_all : (ls set : List Text) → length set ≤ length (insert_all ls set)
unfolding insert_all
length-insert_all [] set = omega arith
length-insert_all (l ∷ ls) set =
    ground (arith, length-insert_all ls set, length-insert_all ls (l ∷ set))

insert_all-cons : (l : Text) (ls : List Text) → 0 ≡ length (insert_all (l ∷ ls) []) → ⊥
unfolding insert_all
insert_all-cons l ls e = omega (arith, length-insert_all ls (l ∷ []))

set_equal-nil : (t : List Text) → (0 ≡ length t → ⊥) → set_equal [] t ≡ false
unfolding set_equal
set_equal-nil t h = ground arith

written_rejected :
    (c : HcloudCluster) (locations : List Text) (z : Text)
    → c.spec.locations ≡ []
    → locations ≢ []
    → validate_cluster_update (set_status_locations locations z c) (cluster_object c)
      ≡ invalid (record { path = text "spec.locations"; detail = text "field is immutable" } ∷ [])
unfolding validate_cluster_update set_status_locations
written_rejected c [] z e n = absurd (n refl)
written_rejected c (l ∷ ls) z e n =
    rw e (rw (set_equal-nil (insert_all (l ∷ ls) []) (insert_all-cons l ls)))

-- When the location service succeeds on a cluster whose spec names no location, and the cloud's
-- locations have distinct names, it has written locations into the spec, and the webhook rejects the
-- update from the cluster before to the cluster after as a change of an immutable field.
pub default_locations_rejected :
    (env : Env) (s : ClusterScope) (all : List Location)
    → DistinctNames all
    → env.hcloud.list_location s.trace ≡ success all
    → s.hcloud_cluster.spec.locations ≡ []
    → (reconcile (cluster_local_scope env) s).0 ≡ ok tt
    → let s' = (reconcile (cluster_local_scope env) s).1 in
      (s'.hcloud_cluster.spec.locations ≢ [])
      × (validate_cluster_update s'.hcloud_cluster (cluster_object s.hcloud_cluster)
          ≡ invalid
              (record { path = text "spec.locations"; detail = text "field is immutable" } ∷ []))
default_locations_rejected env s all d h e o =
    let (r, q) = reconcile_resolves env s all h o in
    let filled : r.0 ≢ [] = (resolve_sound all s.hcloud_cluster.spec.locations r.0 r.1 d q).3 in
    rw (reconcile-placed env s all r h q)
      (unfold set_status_locations in filled, written_rejected s.hcloud_cluster r.0 r.1 e filled)
