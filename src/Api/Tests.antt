-- ===== src/Api/Tests.antt =====
-- The tags and the webhooks at concrete inputs.
use cluster_api_provider_hcl.Base.{Text, text, List, [], ◌∷◌, ◌≡◌, ◌↔◌, refl, str_eq}
use cluster_api_provider_hcl.Api.{HcloudCluster}
use cluster_api_provider_hcl.Api.Webhook.{
  admitted, cluster_object, validate_cluster_update, insert_all, set_equal,
}
use cluster_api_provider_hcl.Api.Webhook.Immutable.{SameLocations, validate_cluster_update_iff}
use cluster_api_provider_hcl.Fixtures.{demo_cluster}

abbrev at_locations : List Text → HcloudCluster
at_locations ls = record demo_cluster { spec = record (demo_cluster.spec) { locations = ls } }

-- Another order of the same locations is admitted.
test_reordered :
    validate_cluster_update
      (at_locations (text "fsn1" ∷ text "nbg1" ∷ []))
      (cluster_object demo_cluster)
    ≡ admitted
unfolding validate_cluster_update insert_all set_equal text str_eq
test_reordered = refl

validate_cluster_update_iff_example :
    (validate_cluster_update (at_locations (text "fsn1" ∷ [])) (cluster_object demo_cluster)
      ≡ admitted)
    ↔ SameLocations demo_cluster.spec.locations (text "fsn1" ∷ [])
validate_cluster_update_iff_example =
    validate_cluster_update_iff (at_locations (text "fsn1" ∷ [])) demo_cluster
