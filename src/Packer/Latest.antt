-- ===== src/Packer/Latest.antt =====
-- Which of the listed images is taken.
use mathlib.Core.List.{Memᴰ}
use cluster_api_provider_hcl.Base.{
  ltb, ◌≤◌, Bool, true, not, Option, none, some, List, [], ◌∷◌, All, if◌then◌else◌, ◌≡◌, sym, ap,
  ◌∙◌, ◌⊎◌, inl, inr, refl, Bool-cases, arith,
}
use cluster_api_provider_hcl.Packer.{Image, newer, latest}

-- No available image of the list is newer.
abbrev pub IsNewest : List Image → Image → Type 0
IsNewest images i = All (λ j. j.is_available ≡ true → j.created ≤ i.created) images

-- What the loop has found, from an image so far.
abbrev Found : List Image → Option Image → Image → Type 0
Found images so_far i =
    ((so_far ≡ some i) ⊎ (Memᴰ i images × (i.is_available ≡ true)))
    × IsNewest images i
    × ((b : Image) → so_far ≡ some b → b.created ≤ i.created)

newer_cases :
    (i : Image) (so_far : Option Image) → (newer i so_far ≡ i) ⊎ (so_far ≡ some (newer i so_far))
unfolding newer
newer_cases i none = inl refl
newer_cases i (some best) = elim (Bool-cases (ltb best.created i.created)) [
  | inl later ↦ inl (rw later refl)
  | inr earlier ↦ inr (rw earlier refl)
]

newer_bounds :
    (i : Image) (so_far : Option Image)
    → (i.created ≤ (newer i so_far).created)
      × ((b : Image) → so_far ≡ some b → b.created ≤ (newer i so_far).created)
unfolding newer
newer_bounds i none = (omega arith, λ b e. cc)
newer_bounds i (some best) = (ground arith, λ b e. ground arith)

latest_step :
    (j : Image) (images : List Image) (so_far : Option Image)
    → j.is_available ≡ true
    → latest (j ∷ images) so_far ≡ latest images (some (newer j so_far))
unfolding latest
latest_step j images so_far a =
    ap (λ (b : Bool). latest images (if not b then so_far else some (newer j so_far))) a

latest-Found :
    (images : List Image) (so_far : Option Image) (i : Image)
    → latest images so_far ≡ some i
    → Found images so_far i
unfolding latest
latest-Found [] so_far i h = (inl h, tt, λ b e. let same : b ≡ i = cc in rw same (omega arith))
latest-Found (j ∷ images) so_far i h = elim (Bool-cases j.is_available) [
  | inr taken ↦
      let (from, newest, bound) = latest-Found images so_far i (rw taken at h) in
      (elim from [ inl e ↦ inl e | inr (m, a) ↦ inr (Memᴰ.tail m, a) ], ((λ q. cc), newest), bound)
  | inl available ↦
      let (from, newest, bound) =
        latest-Found images (some (newer j so_far)) i
          (sym (latest_step j images so_far available) ∙ h) in
      let (above, older) = newer_bounds j so_far in
      let top = bound (newer j so_far) refl in
      (
        elim from [
          | inr (m, a) ↦ inr (Memᴰ.tail m, a)
          | inl e ↦ elim (newer_cases j so_far) [
            | inl here ↦ let same : j ≡ i = cc in inr (Memᴰ.head (cc), cc)
            | inr before ↦ inl (cc)
          ]
        ],
        ((λ q. omega (arith, above, top)), newest),
        (λ b e. omega (arith, older b e, top)),
      )
]

-- The image that is taken is one of the listed ones and available, and no available one is newer.
pub latest-IsNewest :
    (images : List Image) (i : Image)
    → latest images none ≡ some i
    → Memᴰ i images × (i.is_available ≡ true) × IsNewest images i
latest-IsNewest images i h =
    let (from, newest, bound) = latest-Found images none i h in
    elim from [ inl e ↦ cc | inr (m, a) ↦ (m, a, newest) ]
