-- ===== src/Volume/Reclaim.antt =====
-- Which volumes the service deletes.
use mathlib.Core.List.{Memᴰ}
use cluster_api_provider_hcl.Base.{
  Text, Option, none, some, List, [], ◌∷◌, str_eq, str_eq_iff, ◌≡◌, ◌⊎◌, inl, inr, refl, Bool-cases,
}
use cluster_api_provider_hcl.Exec.{Reply, success, refusal}
use cluster_api_provider_hcl.Api.{HcloudVolumeStatus, reclaim_delete}
use cluster_api_provider_hcl.Api.Tags.{labels_to_label_selector}
use cluster_api_provider_hcl.Hcloud.{Call, History, Volume, Env}
use cluster_api_provider_hcl.Scope.{VolumeScope}
use cluster_api_provider_hcl.Volume.{api_to_status, name, labels, find_volume, delete}

abbrev pub trace : VolumeScope → History
trace s = s.cluster_scope.trace

abbrev pub listing : VolumeScope → Call
listing s = Call.list_volumes (labels_to_label_selector (labels s))

abbrev pub listed : Env → VolumeScope → Reply (List Volume)
listed env s = env.hcloud.list_volumes (trace s) (labels_to_label_selector (labels s))

-- A listed volume of that name, with its status.
abbrev pub Found : Text → List Volume → HcloudVolumeStatus → Type 0
Found n vs status = (v : Volume) × Memᴰ v vs × (v.name ≡ n) × (status ≡ api_to_status v)

pub find_volume_sound :
    (n : Text) (vs : List Volume) (status : HcloudVolumeStatus)
    → find_volume n vs ≡ some status
    → Found n vs status
unfolding find_volume
find_volume_sound n [] status h = cc
find_volume_sound n (v ∷ vs) status h = elim (Bool-cases (str_eq v.name n)) [
  | inl same ↦ (v, Memᴰ.head refl, (str_eq_iff v.name n).0 same, cc (rw same at h))
  | inr other ↦
      let (w, m, e, q) = find_volume_sound n vs status (rw other at h) in (w, Memᴰ.tail m, e, q)
]

-- What `Delete` may have asked of the cloud.
abbrev pub Deleted : Env → VolumeScope → History → Type 0
Deleted env s t =
    (t ≡ listing s ∷ trace s)
    ⊎ ((vs : List Volume) × (v : Volume) × (listed env s ≡ success vs)
        × Memᴰ v vs
        × (v.name ≡ name s)
        × (s.hcloud_volume.spec.reclaim_policy ≡ reclaim_delete)
        × (t ≡ Call.delete_volume v.id ∷ listing s ∷ trace s))

delete_found :
    (env : Env) (s : VolumeScope) (vs : List Volume) (status : HcloudVolumeStatus)
    → listed env s ≡ success vs
    → find_volume (name s) vs ≡ some status
    → Deleted env s (trace (delete env s).1)
unfolding delete
delete_found env s vs status h e =
    let (v, m, same, q) = find_volume_sound (name s) vs status e in
    elim (Bool-cases (str_eq s.hcloud_volume.spec.reclaim_policy reclaim_delete)) [
      | inr retain ↦ inl (rw h (rw e (rw retain)))
      | inl policy ↦ inr (
        vs,
        v,
        h,
        m,
        same,
        (str_eq_iff s.hcloud_volume.spec.reclaim_policy reclaim_delete).0 policy,
        rw h (rw e (rw policy (rw q))),
      )
    ]

-- `Delete` looks for the volumes of the cluster, and deletes at most one: one that bears exactly the
-- volume's name, and only under the reclaim policy `Delete`.
pub volume_delete_reclaims_only :
    (env : Env) (s : VolumeScope) → Deleted env s (trace (delete env s).1)
volume_delete_reclaims_only env s = go (listed env s) refl
  where
    found :
        (vs : List Volume) (o : Option HcloudVolumeStatus)
        → listed env s ≡ success vs
        → find_volume (name s) vs ≡ o
        → Deleted env s (trace (delete env s).1)
    found vs none h e = inl (unfold delete in rw h (rw e))
    found vs (some status) h e = delete_found env s vs status h e

    go : (r : Reply (List Volume)) → listed env s ≡ r → Deleted env s (trace (delete env s).1)
    go (refusal e) h = inl (unfold delete in rw h)
    go (success vs) h = found vs (find_volume (name s) vs) h refl
