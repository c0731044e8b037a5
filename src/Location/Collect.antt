-- ===== src/Location/Collect.antt =====
-- The loop over the locations of a spec.
use mathlib.Core.List.{append-nil, append_assoc}
use cluster_api_provider_hcl.Base.{
  Text, true, false, Option, none, some, List, [], ◌∷◌, ◌++◌, Dict, put, lookup, lookup-put, str_eq,
  str_eq_iff, str_eq_refl, All, ◌≡◌, ◌≢◌, sym, ap, ◌∙◌, arith, inl, inr, Option-cases, Bool-cases,
}
use cluster_api_provider_hcl.Exec.{ok}
use cluster_api_provider_hcl.Hcloud.{Location}
use cluster_api_provider_hcl.Location.{locations_map, collect, zone_or}

-- A location of the map that lies in a zone.
abbrev pub InZone : Dict Location → Text → Text → Type 0
InZone m z l = (location : Location) × (lookup l m ≡ some location) × (location.network_zone ≡ z)

-- Each entry of the map stands under its own name.
abbrev pub IsNamed : Dict Location → Type 0
IsNamed m = (k : Text) (l : Location) → lookup k m ≡ some l → l.name ≡ k

put-IsNamed : (l : Location) (m : Dict Location) → IsNamed m → IsNamed (put l.name l m)
put-IsNamed l m named k l' h = elim (Bool-cases (str_eq l.name k)) [
  | inl same ↦ ground (arith, lookup-put l.name k l m, str_eq_iff l.name k)
  | inr other ↦ named k l' (sym (lookup-put l.name k l m ∙ rw other) ∙ h)
]

pub locations_map-IsNamed :
    (ls : List Location) (m : Dict Location) → IsNamed m → IsNamed (locations_map ls m)
unfolding locations_map
locations_map-IsNamed [] m h = h
locations_map-IsNamed (l ∷ ls) m h = locations_map-IsNamed ls (put l.name l m) (put-IsNamed l m h)

pub collect_missing :
    (m : Dict Location) (l : Text) (ls : List Text) (nz : Option Text) (acc : List Text)
    → lookup l m ≡ none
    → (r : Option Text × List Text) → collect m (l ∷ ls) nz acc ≢ ok r
unfolding collect
collect_missing m l ls nz acc e r h = cc (rw (e, collect) at h)

module _ (m : Dict Location) (l : Text) (ls acc : List Text) (location : Location) where
  pub collect_step :
      (nz : Option Text)
      → lookup l m ≡ some location
      → str_eq (zone_or nz location.network_zone) location.network_zone ≡ true
      → collect m (l ∷ ls) nz acc
        ≡ collect m ls (some (zone_or nz location.network_zone)) (acc ++ location.name ∷ [])
  unfolding collect
  collect_step nz e t = rw (e, collect) (rw t)

  collect_other_zone :
      (z : Text) (r : Option Text × List Text)
      → lookup l m ≡ some location
      → str_eq z location.network_zone ≡ false
      → collect m (l ∷ ls) (some z) acc ≢ ok r
  unfolding collect
  collect_other_zone z r e t h = cc (rw (e, t, collect) at h)

-- In nz `z` the loop appends the names, and stays in the nz.
pub collect_complete :
    (m : Dict Location) (ls : List Text) (z : Text) (acc : List Text)
    → IsNamed m
    → All (InZone m z) ls
    → collect m ls (some z) acc ≡ ok (some z, acc ++ ls)
collect_complete m [] z acc named h = unfold collect in rw append-nil
collect_complete m (l ∷ ls) z acc named ((location, e, same), h) =
    collect_step m l ls acc location (some z) e (rw same (str_eq_refl z))
    ∙ rw (named l location e) (
        collect_complete m ls z (acc ++ l ∷ []) named h
        ∙ ap (λ r. ok (some z, r)) (append_assoc acc (l ∷ []) ls))

pub collect_sound :
    (m : Dict Location) (ls : List Text) (z : Text) (acc : List Text) (r : Option Text × List Text)
    → IsNamed m
    → collect m ls (some z) acc ≡ ok r
    → (r ≡ (some z, acc ++ ls)) × All (InZone m z) ls
collect_sound m [] z acc r named h = (unfold collect in (rw append-nil (cc)), tt)
collect_sound m (l ∷ ls) z acc r named h = elim (Option-cases (lookup l m)) [
  | inl missing ↦ absurd (collect_missing m l ls (some z) acc missing r h)
  | inr (location, e) ↦ elim (Bool-cases (str_eq z location.network_zone)) [
    | inr other ↦ absurd (collect_other_zone m l ls acc location z r e other h)
    | inl same ↦
        let next = collect_sound m ls z (acc ++ l ∷ []) r named (
          rw (← named l location e) (sym (collect_step m l ls acc location (some z) e same) ∙ h)) in
        (
          next.0 ∙ ap (λ rest. (some z, rest)) (append_assoc acc (l ∷ []) ls),
          ((location, e, sym ((str_eq_iff z location.network_zone).0 same)), next.1),
        )
  ]
]
