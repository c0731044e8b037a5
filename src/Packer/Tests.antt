-- ===== src/Packer/Tests.antt =====
-- The packer at concrete inputs.
use mathlib.Core.List.{Memᴰ}
use cluster_api_provider_hcl.Base.{text, ◌≤◌, true, false, List, [], ◌∷◌, ◌≡◌, refl}
use cluster_api_provider_hcl.Exec.{success}
use cluster_api_provider_hcl.Packer.{
  Image, PackerParameters, PackerEnv, Packer, hash, latest, newer, ensure_image,
}
use cluster_api_provider_hcl.Packer.Latest.{IsNewest, latest-IsNewest}
use cluster_api_provider_hcl.Packer.Builds.{running}
use cluster_api_provider_hcl.Packer.Steps.{initial, step, ensured, one_build_runs}

-- A cloud without images, and an MD5 that is the identity.
abbrev bare : PackerEnv
bare = record {
  list_images = λ t selector. success [];
  start_build = λ t h. success tt;
  md5 = λ t. t;
}

abbrev parameters : PackerParameters
parameters = record { kubernetes_version = text "1.18.6"; image = text "fedora-32" }

abbrev new_packer : Packer
new_packer = record { builds = []; trace = [] }

abbrev asked_twice : Packer
asked_twice = (ensure_image bare parameters (ensure_image bare parameters new_packer).1).1

one_build_runs_example : running (hash bare parameters) asked_twice.trace ≤ 1
one_build_runs_example =
    one_build_runs bare asked_twice
      (step (step initial (ensured parameters new_packer))
        (ensured parameters (ensure_image bare parameters new_packer).1))
      (hash bare parameters)

abbrev old_image : Image
old_image = record { id = 1; is_available = true; created = 10 }

abbrev new_image : Image
new_image = record { id = 2; is_available = true; created = 20 }

abbrev images : List Image
images = old_image ∷ new_image ∷ record { id = 3; is_available = false; created = 30 } ∷ []

latest-IsNewest_example :
    Memᴰ new_image images × (new_image.is_available ≡ true) × IsNewest images new_image
latest-IsNewest_example = latest-IsNewest images new_image (unfold latest newer in refl)

abbrev shifted : PackerParameters
shifted = record { kubernetes_version = text "1.18.6f"; image = text "edora-32" }
