-- ===== src/Api/Tags.antt =====
-- Tags of owned resources (api/v1alpha3/tags.go), the label selector that finds them
-- (pkg/cloud/utils/utils.go).
use cluster_api_provider_hcl.Base.{Text, text, List, [], ◌∷◌, ◌++◌, Dict, ◌≡◌, map}

abbrev pub resource_lifecycle_owned : Text
resource_lifecycle_owned = text "owned"

abbrev pub name_hcloud_provider_prefix : Text
name_hcloud_provider_prefix = text "cluster-api-provider-hcloud.capihc.com/"

abbrev pub name_hcloud_provider_owned : Text
name_hcloud_provider_owned = text "cluster." ++ name_hcloud_provider_prefix

abbrev pub machine_name_tag_key : Text
machine_name_tag_key = text "machine." ++ (name_hcloud_provider_prefix ++ text "name")

-- `ClusterTagKey`
unfoldable pub cluster_tag_key : Text → Text
cluster_tag_key name = name_hcloud_provider_owned ++ name

-- `strings.Join`
unfoldable pub join : Text → List Text → Text
join sep [] = []
join sep (a ∷ []) = a
join sep (a ∷ b ∷ rest) = a ++ (sep ++ join sep (b ∷ rest))

abbrev selector_part : Text × Text → Text
selector_part (key, val) = key ++ (text "==" ++ val)

-- `LabelsToLabelSelector`; the labels stand in the order in which Go ranges over the map.
unfoldable pub labels_to_label_selector : Dict Text → Text
unfolding join
labels_to_label_selector labels = join (text ",") (map selector_part labels)

append_cancel : (p : Text) (s t : Text) → p ++ s ≡ p ++ t → s ≡ t
append_cancel [] s t h = h
append_cancel (a ∷ p) s t h = append_cancel p s t (cc)

-- Two clusters with different names have different tags.
pub cluster_tag_key_injective : (s t : Text) → cluster_tag_key s ≡ cluster_tag_key t → s ≡ t
unfolding cluster_tag_key
cluster_tag_key_injective s t h = append_cancel name_hcloud_provider_owned s t h
