-- ===== src/Volume/Gone.antt =====
-- What `Delete` has done when it succeeds.
use mathlib.Core.List.{Memᴰ}
use cluster_api_provider_hcl.Base.{
  true, Option, none, some, List, ◌∷◌, All, str_eq, str_eq_iff, ◌≡◌, ◌≢◌, ◌⊎◌, inl, inr, refl,
  Bool-cases,
}
use cluster_api_provider_hcl.Exec.{ok, Reply, success, refusal}
use cluster_api_provider_hcl.Api.{HcloudVolumeStatus, reclaim_delete}
use cluster_api_provider_hcl.Hcloud.{Volume, Env}
use cluster_api_provider_hcl.Scope.{VolumeScope}
use cluster_api_provider_hcl.Volume.{name, find_volume, api_to_status, delete}
use cluster_api_provider_hcl.Volume.Reclaim.{trace, listing, listed, find_volume_sound}
use cluster_api_provider_hcl.Volume.Create.{find_volume-none}

-- No listed volume bears the name, or the policy keeps it, or the cloud accepted its deletion.
abbrev pub Reclaimed : Env → VolumeScope → Type 0
Reclaimed env s =
    (vs : List Volume) × (listed env s ≡ success vs)
    × (All (λ v. v.name ≢ name s) vs
        ⊎ (s.hcloud_volume.spec.reclaim_policy ≢ reclaim_delete)
        ⊎ ((v : Volume) × Memᴰ v vs
            × (v.name ≡ name s)
            × (env.hcloud.delete_volume (listing s ∷ trace s) v.id ≡ success tt)))

module _ (env : Env) (s : VolumeScope) (vs : List Volume) (h : listed env s ≡ success vs)
    (o : (delete env s).0 ≡ ok tt) where
  deletion_accepted :
      (v : Volume) (r : Reply (Unit {0}))
      → find_volume (name s) vs ≡ some (api_to_status v)
      → str_eq s.hcloud_volume.spec.reclaim_policy reclaim_delete ≡ true
      → env.hcloud.delete_volume (listing s ∷ trace s) v.id ≡ r
      → env.hcloud.delete_volume (listing s ∷ trace s) v.id ≡ success tt
  deletion_accepted v (success u) f p e = e
  deletion_accepted v (refusal x) f p e =
      absurd (unfold delete api_to_status in cc (rw e at (rw p at (rw f at (rw h at o)))))

  delete_listed :
      (found : Option HcloudVolumeStatus) → find_volume (name s) vs ≡ found → Reclaimed env s
  delete_listed none f = (vs, h, inl (find_volume-none (name s) vs f))
  delete_listed (some status) f =
      let (v, m, same, q) = find_volume_sound (name s) vs status f in
      elim (Bool-cases (str_eq s.hcloud_volume.spec.reclaim_policy reclaim_delete)) [
        | inr retain ↦ (
          vs,
          h,
          inr (
              inl (λ e.
                cc (retain, (str_eq_iff s.hcloud_volume.spec.reclaim_policy reclaim_delete).1 e))),
        )
        | inl policy ↦
            (vs, h, inr (inr (v, m, same, deletion_accepted v _ (rw q at f) policy refl)))
      ]

-- When `Delete` succeeds, the cloud has listed its volumes, and either none of them bears the
-- volume's name, or the reclaim policy is not `Delete`, or the cloud accepted the deletion of one
-- that bears the name.
pub delete-Reclaimed : (env : Env) (s : VolumeScope) → (delete env s).0 ≡ ok tt → Reclaimed env s
delete-Reclaimed env s o = go (listed env s) refl
  where
    go : (r : Reply (List Volume)) → listed env s ≡ r → Reclaimed env s
    go (refusal e) h = absurd (unfold delete in cc (rw h at o))
    go (success vs) h = delete_listed env s vs h o (find_volume (name s) vs) refl
