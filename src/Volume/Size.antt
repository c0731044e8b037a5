-- ===== src/Volume/Size.antt =====
-- The defaults of a volume's spec, and the size that is asked of the cloud.
use cluster_api_provider_hcl.Base.{
  text, ℕ, ◌+◌, ◌*◌, ◌/◌, ◌≤◌, ◌<◌, ◌⊎◌, leb, Option, none, some, [], ◌≡◌, ◌≢◌, refl, arith, str_eq,
  str_eq_iff, Bool-cases, inl, inr, false, ap,
}
use cluster_api_provider_hcl.Api.{HcloudVolumeSpec, reclaim_retain}
use cluster_api_provider_hcl.Scope.{VolumeScope}
use cluster_api_provider_hcl.Volume.{
  gib, volume_minimum_size, set_size, set_defaults, apply_defaults, create_opts, size_value,
}

minimum-le-set_size : (size : Option ℕ) → volume_minimum_size ≤ set_size size
unfolding set_size
minimum-le-set_size none = omega arith
minimum-le-set_size (some n) = ground arith

set_size_kept : (n : ℕ) → volume_minimum_size < n → set_size (some n) ≡ n
unfolding set_size
set_size_kept n h = ground arith

set_size_idem : (size : Option ℕ) → set_size (some (set_size size)) ≡ set_size size
unfolding set_size
set_size_idem none = refl
set_size_idem (some n) = ground arith

retain-ne-nil : reclaim_retain ≢ []
unfolding text
retain-ne-nil h = cc

reclaim_policy-ne-nil : (spec : HcloudVolumeSpec) → (set_defaults spec).reclaim_policy ≢ []
unfolding set_defaults
reclaim_policy-ne-nil spec h = elim (Bool-cases (str_eq spec.reclaim_policy [])) [
  | inl empty ↦ retain-ne-nil (rw empty at h)
  | inr full ↦ cc (full, (str_eq_iff spec.reclaim_policy []).1 (rw full at h))
]

retain-str_eq : str_eq reclaim_retain [] ≡ false
unfolding text str_eq
retain-str_eq = refl

set_defaults_idem : (spec : HcloudVolumeSpec) → set_defaults (set_defaults spec) ≡ set_defaults spec
unfolding set_defaults
set_defaults_idem spec = elim (Bool-cases (str_eq spec.reclaim_policy [])) [
  | inl empty ↦ rw empty (rw (retain-str_eq, set_size_idem spec.size))
  | inr full ↦ rw full (rw (full, set_size_idem spec.size))
]

-- The defaults give a size of at least 10 GiB, keep a size above it, fill an empty policy, and
-- change nothing when they are applied again.
pub volume_defaults :
    (spec : HcloudVolumeSpec)
    → (volume_minimum_size ≤ size_value (set_defaults spec).size)
      × ((n : ℕ) → spec.size ≡ some n → volume_minimum_size < n → (set_defaults spec).size ≡ some n)
      × ((set_defaults spec).reclaim_policy ≢ [])
      × (set_defaults (set_defaults spec) ≡ set_defaults spec)
unfolding set_defaults
volume_defaults spec = (
  minimum-le-set_size spec.size,
  λ n e h. rw e (ap some (set_size_kept n h)),
  reclaim_policy-ne-nil spec,
  set_defaults_idem spec,
)

-- The size in GiB that is asked of the cloud, for the size in bytes that the spec requests.
abbrev pub SizeFor : Option ℕ → ℕ → Type 0
SizeFor none size = size ≡ 10
SizeFor (some n) size =
    ((n ≤ 10 * gib) × (size ≡ 10)) ⊎ ((10 * gib < n) × (size * gib ≤ n) × (n < size * gib + gib))

size_of : (size : Option ℕ) → SizeFor size (set_size size / 1024 / 1024 / 1024)
size_of none = unfold set_size in refl
size_of (some n) = elim (Bool-cases (leb n volume_minimum_size)) [
  | inl small ↦ inl (ground arith, unfold set_size in rw small refl)
  | inr large ↦
      let more : 10 * gib < n = ground arith in
      inr
        (more, unfold set_size in rw large (omega arith), unfold set_size in rw large (omega arith))
]

-- The size that is asked of the cloud, for the size that the spec requests before the defaults: 10
-- GiB for no size and for at most 10 GiB, and else the requested size rounded down to GiB, so that a
-- created volume is smaller than requested by less than 1 GiB.
pub volume_size :
    (s : VolumeScope) → SizeFor s.hcloud_volume.spec.size (create_opts (apply_defaults s).1).size
unfolding apply_defaults create_opts
volume_size s = size_of s.hcloud_volume.spec.size
