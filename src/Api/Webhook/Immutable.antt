-- ===== src/Api/Webhook/Immutable.antt =====
-- Which updates of a cluster the webhook admits.
use cluster_api_provider_hcl.Base.{
  Text, suc, ◌≤◌, ◌==◌, Bool, true, false, ◌&&◌, ◌||◌, List, [], ◌∷◌, length, mem_text, str_eq,
  str_eq_iff, str_eq_refl, if◌then◌else◌, ◌≡◌, ◌↔◌, inl, inr, refl, sym, ◌∙◌, arith, Bool-cases,
}
use cluster_api_provider_hcl.Api.{HcloudCluster}
use cluster_api_provider_hcl.Api.Webhook.{
  admitted, cluster_object, aggregate_obj_errors, insert_all, subset, set_equal,
  validate_cluster_update,
}

abbrev IsSubset : List Text → List Text → Type 0
IsSubset t s = (l : Text) → mem_text l t ≡ true → mem_text l s ≡ true

-- No text occurs twice.
abbrev IsUnique : List Text → Type 0
IsUnique [] = Unit
IsUnique (a ∷ s) = (mem_text a s ≡ false) × IsUnique s

insert_all-mem :
    (l : Text) (ls set : List Text)
    → mem_text l (insert_all ls set) ≡ (mem_text l ls || mem_text l set)
unfolding insert_all
insert_all-mem l [] set = refl
insert_all-mem l (a ∷ ls) set =
    insert_all-mem l ls (if mem_text a set then set else a ∷ set) ∙ ground (arith, str_eq_iff a l)

insert_all-IsUnique : (ls set : List Text) → IsUnique set → IsUnique (insert_all ls set)
unfolding insert_all
insert_all-IsUnique [] set u = u
insert_all-IsUnique (a ∷ ls) set u = elim (Bool-cases (mem_text a set)) [
  | inl known ↦ rw known (insert_all-IsUnique ls set u)
  | inr new ↦ rw new (insert_all-IsUnique ls (a ∷ set) (new, u))
]

subset_sound : (t s : List Text) → subset t s ≡ true → IsSubset t s
unfolding subset
subset_sound [] s h l m = cc
subset_sound (a ∷ t) s h l m = ground (arith, str_eq_iff a l, subset_sound t s _ l)

subset_complete : (t s : List Text) → IsSubset t s → subset t s ≡ true
unfolding subset
subset_complete [] s h = refl
subset_complete (a ∷ t) s h =
    rw (h a (rw (str_eq_refl a))) (subset_complete t s (λ l m. h l (ground arith)))

-- The list without the first occurrence of a text.
without : Text → List Text → List Text
without a [] = []
without a (b ∷ s) = let rest = without a s in if str_eq b a then s else b ∷ rest

length-without :
    (a : Text) (s : List Text) → mem_text a s ≡ true → length s ≡ suc (length (without a s))
unfolding without
length-without a [] h = cc
length-without a (b ∷ s) h = ground (arith, length-without a s)

mem_text-without :
    (a l : Text) (s : List Text)
    → str_eq a l ≡ false
    → mem_text l s ≡ true
    → mem_text l (without a s) ≡ true
unfolding without
mem_text-without a l [] n h = cc
mem_text-without a l (b ∷ s) n h =
    ground (arith, str_eq_iff b a, str_eq_iff b l, mem_text-without a l s)

not_equal :
    (a l : Text) (t : List Text) → mem_text a t ≡ false → mem_text l t ≡ true → str_eq a l ≡ false
not_equal a l t h m = elim (Bool-cases (str_eq a l)) [
  | inr other ↦ other
  | inl same ↦ let e = (str_eq_iff a l).0 same in cc (h, m, e)
]

-- A list without repetition is at most as long as one that has all its members.
length-le_of_IsSubset : (t s : List Text) → IsUnique t → IsSubset t s → length t ≤ length s
length-le_of_IsSubset [] s u h = omega arith
length-le_of_IsSubset (a ∷ t) s u h =
    let shorter =
      length-le_of_IsSubset t (without a s) u.1
        (λ l m. mem_text-without a l s (not_equal a l t u.0 m) (h l (ground arith))) in
    omega (arith, length-without a s (h a (rw (str_eq_refl a) refl)), shorter)

-- Two lists without repetition, equally long: one that has the other's members has no more.
subset_back : (t s : List Text) → IsUnique t → length s ≡ length t → IsSubset t s → IsSubset s t
subset_back t s u e h l m = elim (Bool-cases (mem_text l t)) [
  | inl there ↦ there
  | inr missing ↦
      let longer =
        length-le_of_IsSubset (l ∷ t) s (missing, u)
          (λ k n. elim (Bool-cases (str_eq l k)) [
            | inl same ↦ let q = (str_eq_iff l k).0 same in cc (m, q)
            | inr other ↦ h k (ground arith)
          ]) in
      absurd (omega (arith, longer, e))
]

-- Two lists have the same members.
abbrev pub SameLocations : List Text → List Text → Type 0
SameLocations s t = (l : Text) → mem_text l s ≡ mem_text l t

set_equal_sound : (s t : List Text) → IsUnique t → set_equal s t ≡ true → SameLocations s t
unfolding set_equal
set_equal_sound s t u h l =
    let (e, b) = both (length s == length t) (subset t s) h in
    same (mem_text l s) (mem_text l t)
      (subset_back t s u (ground (arith, e)) (subset_sound t s b) l) (subset_sound t s b l)
  where
    both : (a b : Bool) → (a && b) ≡ true → (a ≡ true) × (b ≡ true)
    both true b h = (refl, h)
    both false b h = cc

    same : (a b : Bool) → (a ≡ true → b ≡ true) → (b ≡ true → a ≡ true) → a ≡ b
    same true b f g = sym (f refl)
    same false true f g = g refl
    same false false f g = refl

set_equal_complete :
    (s t : List Text) → IsUnique s → IsUnique t → SameLocations s t → set_equal s t ≡ true
unfolding set_equal
set_equal_complete s t u v h =
    let le = length-le_of_IsSubset s t u (λ l m. sym (h l) ∙ m) in
    let ge = length-le_of_IsSubset t s v (λ l m. h l ∙ m) in
    let inside = subset_complete t s (λ l m. h l ∙ m) in
    let e : (length s == length t) ≡ true = ground (arith, le, ge) in rw e inside

inserted : (ls : List Text) (l : Text) → mem_text l (insert_all ls []) ≡ mem_text l ls
inserted ls l = insert_all-mem l ls [] ∙ ground arith

-- The webhook admits an update of a cluster exactly when the old and the new spec name the same
-- locations, in whatever order and however often.
pub validate_cluster_update_iff :
    (r old : HcloudCluster)
    → (validate_cluster_update r (cluster_object old) ≡ admitted)
      ↔ SameLocations old.spec.locations r.spec.locations
validate_cluster_update_iff r old = (sound, complete)
  where
    s : List Text
    s = insert_all old.spec.locations []

    t : List Text
    t = insert_all r.spec.locations []

    sound :
        validate_cluster_update r (cluster_object old) ≡ admitted
        → SameLocations old.spec.locations r.spec.locations
    sound h l = elim (Bool-cases (set_equal s t)) [
      | inl e ↦
          sym (inserted old.spec.locations l)
          ∙ (set_equal_sound s t (insert_all-IsUnique r.spec.locations [] tt) e l
              ∙ inserted r.spec.locations l)
      | inr e ↦ absurd (unfold validate_cluster_update aggregate_obj_errors in cc (rw e at h))
    ]

    complete :
        SameLocations old.spec.locations r.spec.locations
        → validate_cluster_update r (cluster_object old) ≡ admitted
    complete h =
        let e =
          set_equal_complete s t (insert_all-IsUnique old.spec.locations [] tt)
            (insert_all-IsUnique r.spec.locations [] tt)
            (λ l. inserted old.spec.locations l ∙ (h l ∙ sym (inserted r.spec.locations l))) in
        unfold validate_cluster_update aggregate_obj_errors in rw e
