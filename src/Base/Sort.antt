-- ===== src/Base/Sort.antt =====
-- `sort.Strings`: byte-wise order on texts, an insertion sort, and that the sorted list is unique.
use mathlib.Core.Path.{◌≡◌, refl}
use mathlib.Core.Logic.{◌⊎◌, inl, inr}
use mathlib.Core.Bool.{Bool, true, false, ◌&&◌, ◌||◌}
use mathlib.Core.List.{List, [], ◌∷◌, Perm}
use mathlib.Core.List.Perm
use native.Mathlib.Omega.{arith}
use cluster_api_provider_hcl.Base.Tests.{◌==◌, ltb, if◌then◌else◌, Bool-cases}
use cluster_api_provider_hcl.Base.Strings.{Text}
use cluster_api_provider_hcl.Base.Lists.{All}

unfoldable pub str_le : Text → Text → Bool
str_le [] t = true
str_le (a ∷ s) [] = false
str_le (a ∷ s) (b ∷ t) = ltb a b || ((a == b) && str_le s t)

unfoldable pub insert : Text → List Text → List Text
insert x [] = x ∷ []
insert x (y ∷ ys) = if str_le x y then x ∷ y ∷ ys else y ∷ insert x ys

unfoldable pub sort_strings : List Text → List Text
unfolding insert
sort_strings [] = []
sort_strings (x ∷ xs) = insert x (sort_strings xs)

abbrev pub IsSorted : List Text → Type 0
IsSorted [] = Unit
IsSorted (x ∷ xs) = All (λ y. str_le x y ≡ true) xs × IsSorted xs

pub str_le_total : (s t : Text) → (str_le s t ≡ true) ⊎ (str_le t s ≡ true)
unfolding str_le
str_le_total [] t = inl refl
str_le_total (a ∷ s) [] = inr refl
str_le_total (a ∷ s) (b ∷ t) = ground (arith, str_le_total s t)

pub str_le_trans : (s t u : Text) → str_le s t ≡ true → str_le t u ≡ true → str_le s u ≡ true
unfolding str_le
str_le_trans [] t u h k = refl
str_le_trans (a ∷ s) [] u h k = cc
str_le_trans (a ∷ s) (b ∷ t) [] h k = cc
str_le_trans (a ∷ s) (b ∷ t) (c ∷ u) h k = ground (arith, str_le_trans s t u)

pub str_le_antisymm : (s t : Text) → str_le s t ≡ true → str_le t s ≡ true → s ≡ t
unfolding str_le
str_le_antisymm [] [] h k = refl
str_le_antisymm [] (b ∷ t) h k = cc
str_le_antisymm (a ∷ s) [] h k = cc
str_le_antisymm (a ∷ s) (b ∷ t) h k = ground (arith, str_le_antisymm s t)

insert-perm : (x : Text) (xs : List Text) → Perm (insert x xs) (x ∷ xs)
unfolding insert
insert-perm x [] = Perm.refl (x ∷ [])
insert-perm x (y ∷ ys) = elim (Bool-cases (str_le x y)) [
  | inl le ↦ rw le (Perm.refl (x ∷ y ∷ ys))
  | inr gt ↦ rw gt (Perm.trans (Perm.cons y (insert-perm x ys)) (Perm.swap x y ys))
]

pub sort_strings-perm : (xs : List Text) → Perm (sort_strings xs) xs
unfolding sort_strings
sort_strings-perm [] = Perm.refl []
sort_strings-perm (x ∷ xs) =
    Perm.trans (insert-perm x (sort_strings xs)) (Perm.cons x (sort_strings-perm xs))

All-insert : (P : Text → Type 0) (x : Text) (xs : List Text) → P x → All P xs → All P (insert x xs)
unfolding insert
All-insert P x [] p h = (p, tt)
All-insert P x (y ∷ ys) p h = elim (Bool-cases (str_le x y)) [
  | inl le ↦ rw le (p, h)
  | inr gt ↦ rw gt (h.0, All-insert P x ys p h.1)
]

All-str_le :
    (x y : Text) (ys : List Text)
    → str_le x y ≡ true
    → All (λ z. str_le y z ≡ true) ys
    → All (λ z. str_le x z ≡ true) ys
All-str_le x y [] le h = tt
All-str_le x y (z ∷ ys) le h = (str_le_trans x y z le h.0, All-str_le x y ys le h.1)

insert-IsSorted : (x : Text) (xs : List Text) → IsSorted xs → IsSorted (insert x xs)
unfolding insert
insert-IsSorted x [] h = (tt, tt)
insert-IsSorted x (y ∷ ys) h = elim (Bool-cases (str_le x y)) [
  | inl le ↦ rw le ((le, All-str_le x y ys le h.0), h)
  | inr gt ↦ rw gt (
    All-insert (λ z. str_le y z ≡ true) x ys (elim (str_le_total x y) [ inl le ↦ cc | inr ge ↦ ge ])
        h.0,
    insert-IsSorted x ys h.1,
  )
]

pub sort_strings-IsSorted : (xs : List Text) → IsSorted (sort_strings xs)
unfolding sort_strings
sort_strings-IsSorted [] = tt
sort_strings-IsSorted (x ∷ xs) = insert-IsSorted x (sort_strings xs) (sort_strings-IsSorted xs)

pub All-sort_strings : (P : Text → Type 0) (xs : List Text) → All P xs → All P (sort_strings xs)
unfolding sort_strings
All-sort_strings P [] h = tt
All-sort_strings P (x ∷ xs) h = All-insert P x (sort_strings xs) h.0 (All-sort_strings P xs h.1)
