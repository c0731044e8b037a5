-- ===== src/Scope/FailureDomain/Choice.antt =====
-- Which failure domain `GetFailureDomain` chooses.
use mathlib.Core.List.{Perm, Memᴰ, filter_map}
use mathlib.Core.List.Perm
use mathlib.Core.Logic.{∥∥₁_map}
use cluster_api_provider_hcl.Base.{
  Text, ℕ, zero, suc, ◌%◌, ◌<◌, ◌≤◌, Bool, true, false, Option, none, some, List, [], ◌∷◌, Dict,
  insert, if◌then◌else◌, not, ◌&&◌, ◌≡◌, ◌≢◌, refl, sym, ap, ◌∙◌, length, get_elem?, sort_strings,
  sort_strings-perm, sort_strings-eq_of_perm, arith,
}
use cluster_api_provider_hcl.Exec.{failure_domain_not_found, Result, ok, err, panic}
use cluster_api_provider_hcl.Scope.FailureDomain.{
  checksum_ieee, failure_domain_names, pick, choose, get_failure_domain,
}

length-insert : (x : Text) (xs : List Text) → length (insert x xs) ≡ suc (length xs)
unfolding insert
length-insert x [] = refl
length-insert x (y ∷ ys) = ground (arith, length-insert x ys)

length-sort_strings : (xs : List Text) → length (sort_strings xs) ≡ length xs
unfolding sort_strings
length-sort_strings [] = refl
length-sort_strings (x ∷ xs) =
    omega (arith, length-insert x (sort_strings xs), length-sort_strings xs)

-- `choose` as a function of the sorted names.
choose_sorted : Text → List Text → Result Text
choose_sorted machine_name [] = err failure_domain_not_found
choose_sorted machine_name (name ∷ []) = ok name
choose_sorted machine_name (a ∷ b ∷ names) =
    elim (get_elem? (a ∷ b ∷ names) (checksum_ieee machine_name % length (a ∷ b ∷ names))) [
      | none ↦ panic
      | some name ↦ ok name
    ]

pick-eq-choose_sorted :
    (n : Text) (names sorted : List Text)
    → sort_strings names ≡ sorted
    → length sorted ≡ length names
    → 2 ≤ length names
    → pick n names ≡ choose_sorted n sorted
unfolding pick choose_sorted
pick-eq-choose_sorted n names [] e l h = absurd (omega arith)
pick-eq-choose_sorted n names (a ∷ []) e l h = absurd (omega arith)
pick-eq-choose_sorted n names (a ∷ b ∷ s) e l h = rw (pick, e, ← l)

choose-eq-choose_sorted :
    (n : Text) (names : List Text) → choose n names ≡ choose_sorted n (sort_strings names)
unfolding choose choose_sorted sort_strings insert
choose-eq-choose_sorted n [] = refl
choose-eq-choose_sorted n (a ∷ []) = refl
choose-eq-choose_sorted n (a ∷ b ∷ names) =
    pick-eq-choose_sorted n (a ∷ b ∷ names) (sort_strings (a ∷ b ∷ names)) refl
      (length-sort_strings (a ∷ b ∷ names)) (omega arith)

abbrev keep_domain : Bool → Text × Bool → Option Text
keep_domain is_control_plane (fd_name, control_plane) =
    if is_control_plane && not control_plane then none else some fd_name

names-eq-filter_map :
    (cp : Bool) (fds : Dict Bool) → failure_domain_names cp fds ≡ filter_map (keep_domain cp) fds
unfolding failure_domain_names filter_map
names-eq-filter_map cp [] = refl
names-eq-filter_map true ((fd, true) ∷ fds) = ap (◌∷◌ fd) (names-eq-filter_map true fds)
names-eq-filter_map true ((fd, false) ∷ fds) = names-eq-filter_map true fds
names-eq-filter_map false ((fd, c) ∷ fds) = ap (◌∷◌ fd) (names-eq-filter_map false fds)

names-perm :
    (cp : Bool) {fds fds' : Dict Bool}
    → Perm fds fds'
    → Perm (failure_domain_names cp fds) (failure_domain_names cp fds')
names-perm cp {fds} {fds'} p =
    rw (names-eq-filter_map cp fds, names-eq-filter_map cp fds')
      (Perm.filter_map (keep_domain cp) p)

-- The choice does not depend on the order in which Go ranges over the map of failure domains.
pub get_failure_domain_perm :
    (own : Option Text) (cp : Bool) (n : Text) (fds fds' : Dict Bool)
    → Perm fds fds'
    → get_failure_domain own cp n fds ≡ get_failure_domain own cp n fds'
unfolding get_failure_domain
get_failure_domain_perm (some d) cp n fds fds' p = refl
get_failure_domain_perm none cp n fds fds' p =
    choose-eq-choose_sorted n (failure_domain_names cp fds)
    ∙ ap (choose_sorted n) (sort_strings-eq_of_perm (names-perm cp p))
    ∙ sym (choose-eq-choose_sorted n (failure_domain_names cp fds'))

-- A domain of the cluster that a machine of that role may be placed in.
abbrev pub Admits : Bool → Dict Bool → Text → Bool → Type 0
Admits cp fds d flag = Memᴰ (d, flag) fds × (cp ≡ true → flag ≡ true)

abbrev pub IsAllowed : Bool → Dict Bool → Text → Type 0
IsAllowed cp fds d = ∥ ((flag : Bool) × Admits cp fds d flag) ∥₁

Admits-later :
    {cp : Bool} {fds : Dict Bool} {d : Text} (fd : Text × Bool)
    → (flag : Bool) × Admits cp fds d flag
    → (flag : Bool) × Admits cp (fd ∷ fds) d flag
Admits-later fd (flag, (m, h)) = (flag, (Memᴰ.tail m, h))

Memᴰ-names :
    (cp : Bool) (fds : Dict Bool) (d : Text)
    → Memᴰ d (failure_domain_names cp fds)
    → (flag : Bool) × Admits cp fds d flag
unfolding failure_domain_names
Memᴰ-names true ((fd, true) ∷ fds) d (Memᴰ.head e) = (true, (Memᴰ.head (rw e), λ h. h))
Memᴰ-names true ((fd, true) ∷ fds) d (Memᴰ.tail m) =
    Admits-later (fd, true) (Memᴰ-names true fds d m)
Memᴰ-names true ((fd, false) ∷ fds) d m = Admits-later (fd, false) (Memᴰ-names true fds d m)
Memᴰ-names false ((fd, c) ∷ fds) d (Memᴰ.head e) = (c, (Memᴰ.head (rw e), λ h. cc))
Memᴰ-names false ((fd, c) ∷ fds) d (Memᴰ.tail m) = Admits-later (fd, c) (Memᴰ-names false fds d m)
Memᴰ-names cp [] d m = elim m [ ]

get_elem?-Memᴰ : (xs : List Text) (i : ℕ) (d : Text) → get_elem? xs i ≡ some d → Memᴰ d xs
get_elem?-Memᴰ [] i d h = cc
get_elem?-Memᴰ (x ∷ xs) zero d h = Memᴰ.head (cc)
get_elem?-Memᴰ (x ∷ xs) (suc i) d h = Memᴰ.tail (get_elem?-Memᴰ xs i d h)

get_elem?-ne-none : (xs : List Text) (i : ℕ) → i < length xs → get_elem? xs i ≢ none
get_elem?-ne-none [] i h e = elim h [ ]
get_elem?-ne-none (x ∷ xs) zero h e = cc
get_elem?-ne-none (x ∷ xs) (suc i) h e = get_elem?-ne-none xs i (omega arith) e

-- What the answer of `GetFailureDomain` says when the machine has no domain of its own.
abbrev pub Chosen : Bool → Dict Bool → Result Text → Type 0
Chosen cp fds (ok d) = IsAllowed cp fds d
Chosen cp fds (err e) = (e ≡ failure_domain_not_found) × (failure_domain_names cp fds ≡ [])
Chosen cp fds panic = ⊥

pick-Chosen :
    (cp : Bool) (n : Text) (fds : Dict Bool) (names : List Text)
    → failure_domain_names cp fds ≡ names
    → 0 < length names
    → Chosen cp fds (pick n names)
unfolding pick
pick-Chosen cp n fds names e h =
    go (get_elem? (sort_strings names) (checksum_ieee n % length names)) refl
  where
    go :
        (o : Option Text)
        → get_elem? (sort_strings names) (checksum_ieee n % length names) ≡ o
        → Chosen cp fds (elim o [ none ↦ panic | some name ↦ ok name ])
    go none q = absurd (
        get_elem?-ne-none (sort_strings names) (checksum_ieee n % length names)
          (rw (length-sort_strings names) (omega arith)) q)
    go (some d) q =
        ∥∥₁_map {B = (flag : Bool) × Admits cp fds d flag}
          ((Perm.mem_iff (sort_strings-perm names)).0
            ∣ get_elem?-Memᴰ (sort_strings names) _ d q ∣₁)
          (λ m. Memᴰ-names cp fds d (rw e m))

-- Without a domain of its own a machine gets a domain of the cluster that its role admits, or the
-- error that there is none, exactly when there is none; the index never leaves the list.
pub get_failure_domain-Chosen :
    (cp : Bool) (n : Text) (fds : Dict Bool) → Chosen cp fds (get_failure_domain none cp n fds)
unfolding get_failure_domain
get_failure_domain-Chosen cp n fds = go (failure_domain_names cp fds) refl
  where
    go : (names : List Text) → failure_domain_names cp fds ≡ names → Chosen cp fds (choose n names)
    go [] e = (refl, e)
    go (a ∷ []) e = ∣ Memᴰ-names cp fds a (rw e (Memᴰ.head refl)) ∣₁
    go (a ∷ b ∷ names) e = pick-Chosen cp n fds (a ∷ b ∷ names) e (omega arith)
