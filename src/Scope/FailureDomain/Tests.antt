-- ===== src/Scope/FailureDomain/Tests.antt =====
-- The cases of pkg/scope/machine_test.go, and the theorems at such inputs.
use mathlib.Core.List.Perm
use cluster_api_provider_hcl.Base.{
  text, Bool, true, false, none, [], ◌∷◌, Dict, ◌≡◌, refl, sort_strings, str_le,
}
use cluster_api_provider_hcl.Exec.{ok}
use cluster_api_provider_hcl.Scope.FailureDomain.{get_failure_domain}
use cluster_api_provider_hcl.Scope.FailureDomain.Choice.{
  get_failure_domain_perm, Chosen, get_failure_domain-Chosen,
}

abbrev fds : Dict Bool
fds = (text "loc3", false) ∷ (text "loc2", false) ∷ (text "loc4", true) ∷ []

abbrev fds_swapped : Dict Bool
fds_swapped = (text "loc2", false) ∷ (text "loc3", false) ∷ (text "loc4", true) ∷ []

test_worker : get_failure_domain none false (text "my-name") fds ≡ ok (text "loc3")
unfolding get_failure_domain text sort_strings str_le
test_worker = refl

test_control_plane : get_failure_domain none true (text "my-name") fds ≡ ok (text "loc4")
unfolding get_failure_domain text sort_strings str_le
test_control_plane = refl

get_failure_domain_perm_example :
    get_failure_domain none false (text "my-name") fds
    ≡ get_failure_domain none false (text "my-name") fds_swapped
get_failure_domain_perm_example =
    get_failure_domain_perm none false (text "my-name") fds fds_swapped
      (Perm.swap (text "loc2", false) (text "loc3", false) ((text "loc4", true) ∷ []))

get_failure_domain-Chosen_example :
    Chosen true fds (get_failure_domain none true (text "my-name") fds)
get_failure_domain-Chosen_example = get_failure_domain-Chosen true (text "my-name") fds
