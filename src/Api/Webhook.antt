-- ===== src/Api/Webhook.antt =====
-- The validating webhooks (api/v1alpha3/hcloudcluster_webhook.go, hcloudmachine_webhook.go,
-- webhooks.go).
pub mod Immutable
use cluster_api_provider_hcl.Base.{
  Text, text, Bool, true, not, ◌&&◌, List, [], ◌∷◌, if◌then◌else◌, str_eq, mem_text, length, ◌==◌,
}
use cluster_api_provider_hcl.Api.{HcloudCluster, HcloudMachine}

-- A field error: the path of the field and the message.
pub record FieldError : Type 0 where
  pub path : Text
  pub detail : Text

-- What a validation returns: admitted, a bad request, or the errors of the fields.
pub data Verdict : Type 0 where
  admitted bad_request : Verdict
  invalid : List FieldError → Verdict

-- `aggregateObjErrors`
unfoldable pub aggregate_obj_errors : List FieldError → Verdict
aggregate_obj_errors [] = admitted
aggregate_obj_errors (e ∷ es) = invalid (e ∷ es)

-- `sets.String.Insert` of each location
unfoldable pub insert_all : List Text → List Text → List Text
insert_all [] set = set
insert_all (l ∷ ls) set = insert_all ls (if mem_text l set then set else l ∷ set)

unfoldable pub subset : List Text → List Text → Bool
subset [] t = true
subset (a ∷ s) t = mem_text a t && subset s t

-- `sets.String.Equal`: as many elements, and every element of the second in the first
unfoldable pub set_equal : List Text → List Text → Bool
unfolding subset
set_equal s t = (length s == length t) && subset t s

-- The objects that a webhook may be handed.
pub data Object : Type 0 where
  cluster_object : HcloudCluster → Object
  machine_object : HcloudMachine → Object

-- `HcloudCluster.ValidateUpdate`
unfoldable pub validate_cluster_update : HcloudCluster → Object → Verdict
unfolding aggregate_obj_errors insert_all set_equal
validate_cluster_update r (machine_object m) = bad_request
validate_cluster_update r (cluster_object old) = aggregate_obj_errors (
    if not (set_equal (insert_all old.spec.locations []) (insert_all r.spec.locations []))
    then record { path = text "spec.locations"; detail = text "field is immutable" } ∷ []
    else [])

-- `validateHcloudMachineSpec`, the whole of `HcloudMachine.ValidateCreate`
unfoldable pub validate_machine_create : HcloudMachine → Verdict
unfolding aggregate_obj_errors
validate_machine_create r = aggregate_obj_errors (
    if length r.spec.type == 0
    then record { path = text "spec.type"; detail = text "field cannot be empty" } ∷ []
    else [])

-- `HcloudMachine.ValidateUpdate`
unfoldable pub validate_machine_update : HcloudMachine → Object → Verdict
unfolding aggregate_obj_errors
validate_machine_update r (cluster_object c) = bad_request
validate_machine_update r (machine_object old) = aggregate_obj_errors (
    if not (str_eq r.spec.type old.spec.type)
    then record { path = text "spec.type"; detail = text "field is immutable" } ∷ []
    else [])
