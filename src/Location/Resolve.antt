-- ===== src/Location/Resolve.antt =====
-- What `resolve` accepts and returns.
use mathlib.Core.List.Perm
use mathlib.Core.List.{Perm}
use cluster_api_provider_hcl.Base.{
  Text, false, Option, none, some, List, [], ◌∷◌, Dict, put, lookup, lookup-put, str_eq, str_eq_iff,
  str_eq_refl, length, mem_text, map, ||-false, suc-==-zero, sort_strings, sort_strings-perm,
  sort_strings-IsSorted, All-sort_strings, sort_strings_of_IsSorted, IsSorted, All, ◌≡◌, ◌≢◌, refl,
  sym, ap, ◌∙◌, inl, inr, Option-cases, Bool-cases,
}
use cluster_api_provider_hcl.Exec.{Result, ok, err, panic}
use cluster_api_provider_hcl.Hcloud.{Location}
use cluster_api_provider_hcl.Location.{
  network_zone_eu_central, locations_map, default_locations, collect, finish, and_finish, resolve,
}
use cluster_api_provider_hcl.Location.Collect.{
  InZone, IsNamed, collect_complete, collect_missing, collect_sound, collect_step,
  locations_map-IsNamed,
}

-- With nothing fixed yet, the first location of the spec fixes the zone.
collect_first :
    (m : Dict Location) (l : Text) (ls : List Text) (location : Location)
    → lookup l m ≡ some location
    → collect m (l ∷ ls) none [] ≡ collect m (l ∷ ls) (some location.network_zone) []
collect_first m l ls location e =
    let here = str_eq_refl location.network_zone in
    collect_step m l ls [] location none e here
    ∙ sym (collect_step m l ls [] location (some location.network_zone) e here)

-- No two locations share a name, as the cloud documents of its locations.
abbrev pub DistinctNames : List Location → Type 0
DistinctNames [] = Unit
DistinctNames (l ∷ ls) = (mem_text l.name (map (λ x. x.name) ls) ≡ false) × DistinctNames ls

lookup-locations_map :
    (k : Text) (ls : List Location) (m : Dict Location)
    → mem_text k (map (λ l. l.name) ls) ≡ false
    → lookup k (locations_map ls m) ≡ lookup k m
unfolding locations_map
lookup-locations_map k [] m h = refl
lookup-locations_map k (l ∷ ls) m h =
    let absent = ||-false (str_eq l.name k) (mem_text k (map (λ x. x.name) ls)) h in
    lookup-locations_map k ls (put l.name l m) absent.1 ∙ (lookup-put l.name k l m ∙ rw absent.0)

default_InZone :
    (ls : List Location) (m : Dict Location)
    → DistinctNames ls
    → All (InZone (locations_map ls m) network_zone_eu_central) (default_locations ls)
unfolding default_locations locations_map
default_InZone [] m h = tt
default_InZone (l ∷ ls) m h = elim (Bool-cases (str_eq network_zone_eu_central l.network_zone)) [
  | inr other ↦ rw other (default_InZone ls (put l.name l m) h.1)
  | inl same ↦ rw same (
    (
      l,
      lookup-locations_map l.name ls (put l.name l m) h.0
          ∙ (lookup-put l.name l.name l m ∙ rw (str_eq_refl l.name)),
      sym ((str_eq_iff network_zone_eu_central l.network_zone).0 same),
    ),
    default_InZone ls (put l.name l m) h.1,
  )
]

resolve_nil :
    (all : List Location)
    → resolve all [] ≡ finish (some network_zone_eu_central, default_locations all)
unfolding resolve collect
resolve_nil all = refl

resolve_cons :
    (all : List Location) (l : Text) (ls : List Text)
    → resolve all (l ∷ ls) ≡ and_finish (collect (locations_map all []) (l ∷ ls) none [])
unfolding resolve
resolve_cons all l ls = rw (suc-==-zero (length ls))

finish_cons :
    (l : Text) (ls : List Text) (z : Text) → finish (some z, l ∷ ls) ≡ ok (sort_strings (l ∷ ls), z)
unfolding finish
finish_cons l ls z = rw (suc-==-zero (length ls))

map-IsNamed : (all : List Location) → IsNamed (locations_map all [])
map-IsNamed all = locations_map-IsNamed all [] (λ k l h. unfold lookup in cc h)

-- A spec whose locations are all known and lie in one zone is accepted, and sorted.
pub resolve_complete :
    (all : List Location) (l : Text) (ls : List Text) (z : Text)
    → All (InZone (locations_map all []) z) (l ∷ ls)
    → resolve all (l ∷ ls) ≡ ok (sort_strings (l ∷ ls), z)
resolve_complete all l ls z ((location, e, same), h) =
    resolve_cons all l ls
    ∙ (ap and_finish (
          rw (← same) (collect_first (locations_map all []) l ls location e)
          ∙ collect_complete (locations_map all []) (l ∷ ls) z [] (map-IsNamed all)
              ((location, e, same), h))
        ∙ finish_cons l ls z)

-- The conclusion of `resolve_sound`.
abbrev pub Resolved : List Location → List Text → List Text → Text → Type 0
Resolved all spec locations z =
    All (InZone (locations_map all []) z) locations
    × IsSorted locations
    × (spec ≢ [] → Perm locations spec)
    × (locations ≢ [])

sort_strings-ne-nil : (xs : List Text) → xs ≢ [] → sort_strings xs ≢ []
sort_strings-ne-nil xs h e = h (sym (Perm.nil-eq (rw e at (sort_strings-perm xs))))

finish_sound :
    (m : Dict Location) (names locations : List Text) (y z : Text)
    → All (InZone m y) names
    → finish (some y, names) ≡ ok (locations, z)
    → All (InZone m z) locations × IsSorted locations × Perm locations names × (locations ≢ [])
unfolding finish
finish_sound m [] locations y z h e = cc
finish_sound m (n ∷ names) locations y z h e =
    let sorted : sort_strings (n ∷ names) ≡ locations = cc (finish_cons n names y) in
    let same : y ≡ z = cc (finish_cons n names y) in
    rw (← sorted, ← same)
      (
        All-sort_strings (InZone m y) (n ∷ names) h,
        sort_strings-IsSorted (n ∷ names),
        sort_strings-perm (n ∷ names),
        sort_strings-ne-nil (n ∷ names) (λ q. cc),
      )

and_finish_ok :
    (r : Result (Option Text × List Text)) {q : List Text × Text}
    → and_finish r ≡ ok q
    → (x : Option Text × List Text) × (r ≡ ok x) × (finish x ≡ ok q)
and_finish_ok (ok x) h = (x, refl, h)
and_finish_ok (err e) h = cc
and_finish_ok panic h = cc

resolve_cons_sound :
    (all : List Location) (l : Text) (ls locations : List Text) (z : Text)
    → resolve all (l ∷ ls) ≡ ok (locations, z)
    → Resolved all (l ∷ ls) locations z
resolve_cons_sound all l ls locations z h =
    let m = locations_map all [] in
    let (x, e, f) = and_finish_ok (collect m (l ∷ ls) none []) (sym (resolve_cons all l ls) ∙ h) in
    elim (Option-cases (lookup l m)) [
      | inl missing ↦ absurd (collect_missing m l ls none [] missing x e)
      | inr (location, found) ↦
          let (shape, zones) =
            collect_sound m (l ∷ ls) location.network_zone [] x (map-IsNamed all)
              (sym (collect_first m l ls location found) ∙ e) in
          let r = finish_sound m (l ∷ ls) locations location.network_zone z zones (rw shape at f) in
          (r.0, r.1, (λ _. r.2), r.3)
    ]

-- The accepted locations are known, lie in the returned zone and are sorted; they are those of the
-- spec, if it names any.
pub resolve_sound :
    (all : List Location) (spec locations : List Text) (z : Text)
    → DistinctNames all
    → resolve all spec ≡ ok (locations, z)
    → Resolved all spec locations z
resolve_sound all [] locations z d h =
    let r =
      finish_sound (locations_map all []) (default_locations all) locations network_zone_eu_central
        z (default_InZone all [] d) (sym (resolve_nil all) ∙ h) in
    (r.0, r.1, (λ n. absurd (n refl)), r.3)
resolve_sound all (l ∷ ls) locations z d h = resolve_cons_sound all l ls locations z h

-- `resolve` is stable: the locations that it returned, given back as the spec, are accepted with
-- the same result.
pub resolve_stable :
    (all : List Location) (spec locations : List Text) (z : Text)
    → DistinctNames all
    → resolve all spec ≡ ok (locations, z)
    → resolve all locations ≡ ok (locations, z)
resolve_stable all spec [] z d h = absurd ((resolve_sound all spec [] z d h).3 refl)
resolve_stable all spec (l ∷ ls) z d h =
    let r = resolve_sound all spec (l ∷ ls) z d h in
    resolve_complete all l ls z r.0
    ∙ ap (λ sorted. ok (sorted, z)) (sort_strings_of_IsSorted (l ∷ ls) r.1)
