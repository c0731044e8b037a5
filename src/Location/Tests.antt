-- ===== src/Location/Tests.antt =====
-- The location service at concrete inputs.
use cluster_api_provider_hcl.Base.{
  Text, text, List, [], ◌∷◌, ◌≡◌, ◌≢◌, refl, All, lookup, put, str_eq, sort_strings, str_le, insert,
}
use cluster_api_provider_hcl.Exec.{ok}
use cluster_api_provider_hcl.Api.{HcloudCluster}
use cluster_api_provider_hcl.Api.Webhook.{invalid, cluster_object, validate_cluster_update}
use cluster_api_provider_hcl.Hcloud.{Location}
use cluster_api_provider_hcl.Scope.{ClusterScope}
use cluster_api_provider_hcl.Location.{
  collect, finish, resolve, reconcile, cluster_local_scope, locations_map,
}
use cluster_api_provider_hcl.Location.Resolve.{
  DistinctNames, Resolved, resolve_complete, resolve_sound, resolve_stable,
}
use cluster_api_provider_hcl.Location.Collect.{InZone}
use cluster_api_provider_hcl.Location.Reconcile.{locations_stable, default_locations_rejected}
use cluster_api_provider_hcl.Fixtures.{
  nuremberg, falkenstein, empty_cloud, env_of, demo_scope, demo_cluster,
}

abbrev all_locations : List Location
all_locations = nuremberg ∷ falkenstein ∷ []

abbrev wanted : List Text
wanted = text "nbg1" ∷ text "fsn1" ∷ []

abbrev placed_at : List Text
placed_at = text "fsn1" ∷ text "nbg1" ∷ []

all_locations-DistinctNames : DistinctNames all_locations
unfolding text str_eq
all_locations-DistinctNames = (refl, (refl, tt))

test_resolve : resolve all_locations wanted ≡ ok (placed_at, text "eu-central")
unfolding resolve locations_map lookup put text str_eq sort_strings str_le insert collect finish
test_resolve = refl

wanted-InZone : All (InZone (locations_map all_locations []) (text "eu-central")) wanted
unfolding locations_map lookup put text str_eq
wanted-InZone = ((nuremberg, refl, refl), ((falkenstein, refl, refl), tt))

resolve_complete_example :
    resolve all_locations wanted ≡ ok (sort_strings wanted, text "eu-central")
resolve_complete_example =
    resolve_complete all_locations (text "nbg1") (text "fsn1" ∷ []) (text "eu-central")
      wanted-InZone

resolve_sound_example : Resolved all_locations wanted placed_at (text "eu-central")
resolve_sound_example =
    resolve_sound all_locations wanted placed_at (text "eu-central") all_locations-DistinctNames
      test_resolve

resolve_stable_example : resolve all_locations placed_at ≡ ok (placed_at, text "eu-central")
resolve_stable_example =
    resolve_stable all_locations wanted placed_at (text "eu-central") all_locations-DistinctNames
      test_resolve

test_reconcile : (reconcile (cluster_local_scope (env_of empty_cloud)) demo_scope).0 ≡ ok tt
unfolding reconcile cluster_local_scope resolve locations_map lookup put text str_eq sort_strings
    str_le insert collect finish
test_reconcile = refl

locations_stable_example :
    let s' = (reconcile (cluster_local_scope (env_of empty_cloud)) demo_scope).1 in
    let again = reconcile (cluster_local_scope (env_of empty_cloud)) s' in
    (again.0 ≡ ok tt) × (again.1.hcloud_cluster ≡ s'.hcloud_cluster)
locations_stable_example =
    locations_stable (env_of empty_cloud) demo_scope all_locations all_locations-DistinctNames refl
      refl test_reconcile

abbrev without_locations : HcloudCluster
without_locations = record demo_cluster { spec = record (demo_cluster.spec) { locations = [] } }

abbrev unplaced : ClusterScope
unplaced = record demo_scope { hcloud_cluster = without_locations }

test_unplaced : (reconcile (cluster_local_scope (env_of empty_cloud)) unplaced).0 ≡ ok tt
unfolding reconcile cluster_local_scope resolve locations_map lookup put text str_eq sort_strings
    str_le insert collect finish
test_unplaced = refl

default_locations_rejected_example :
    let s' = (reconcile (cluster_local_scope (env_of empty_cloud)) unplaced).1 in
    (s'.hcloud_cluster.spec.locations ≢ [])
    × (validate_cluster_update s'.hcloud_cluster (cluster_object without_locations)
        ≡ invalid
            (record { path = text "spec.locations"; detail = text "field is immutable" } ∷ []))
default_locations_rejected_example =
    default_locations_rejected (env_of empty_cloud) unplaced all_locations
      all_locations-DistinctNames refl refl test_unplaced
