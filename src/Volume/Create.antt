-- ===== src/Volume/Create.antt =====
-- When `Reconcile` creates a volume.
use cluster_api_provider_hcl.Base.{
  Text, Option, none, some, List, [], ◌∷◌, All, str_eq, str_eq_iff, ◌≡◌, ◌≢◌, ◌⊎◌, inl, inr, refl,
  arith, Bool-cases,
}
use cluster_api_provider_hcl.Exec.{Reply, success, refusal}
use cluster_api_provider_hcl.Api.{HcloudVolumeStatus}
use cluster_api_provider_hcl.Hcloud.{Call, History, Volume, Env}
use cluster_api_provider_hcl.Scope.{VolumeScope}
use cluster_api_provider_hcl.Volume.{name, find_volume, create_opts, reconcile, apply_defaults}
use cluster_api_provider_hcl.Volume.Reclaim.{trace, listing, listed}

pub find_volume-none :
    (n : Text) (vs : List Volume) → find_volume n vs ≡ none → All (λ v. v.name ≢ n) vs
unfolding find_volume
find_volume-none n [] h = tt
find_volume-none n (v ∷ vs) h = elim (Bool-cases (str_eq v.name n)) [
  | inl same ↦ cc (rw same at h)
  | inr other ↦
      ((λ e. cc (other, (str_eq_iff v.name n).1 e)), find_volume-none n vs (rw other at h))
]

-- The scope once the defaults of the spec are set.
abbrev pub defaulted : VolumeScope → VolumeScope
defaulted s = (apply_defaults s).1

-- What `Reconcile` may have asked of the cloud.
abbrev pub Reconciled : Env → VolumeScope → History → Type 0
Reconciled env s t =
    (t ≡ listing s ∷ trace s)
    ⊎ ((vs : List Volume) × (listed env s ≡ success vs)
        × All (λ v. v.name ≢ name s) vs
        × (t ≡ Call.create_volume (create_opts (defaulted s)) ∷ listing s ∷ trace s))

create_absent :
    (env : Env) (s : VolumeScope) (vs : List Volume)
    → listed env s ≡ success vs
    → find_volume (name s) vs ≡ none
    → trace (reconcile env s).1
      ≡ Call.create_volume (create_opts (defaulted s)) ∷ listing s ∷ trace s
unfolding reconcile
create_absent env s vs h e = rw h (rw e (ground arith))

-- `Reconcile` looks for the volumes of the cluster, and creates at most one, only after the cloud has
-- listed them and none bears the volume's name.
pub volume_created_once :
    (env : Env) (s : VolumeScope) → Reconciled env s (trace (reconcile env s).1)
volume_created_once env s = go (listed env s) refl
  where
    found :
        (vs : List Volume) (o : Option HcloudVolumeStatus)
        → listed env s ≡ success vs
        → find_volume (name s) vs ≡ o
        → Reconciled env s (trace (reconcile env s).1)
    found vs none h e = inr (vs, h, find_volume-none (name s) vs e, create_absent env s vs h e)
    found vs (some status) h e = inl (unfold reconcile in rw h (rw e))

    go : (r : Reply (List Volume)) → listed env s ≡ r → Reconciled env s (trace (reconcile env s).1)
    go (refusal e) h = inl (unfold reconcile in rw h)
    go (success vs) h = found vs (find_volume (name s) vs) h refl
