-- ===== src/Base/Unique.antt =====
-- `sort_strings` forgets the order of its argument, and leaves a sorted list alone.
use mathlib.Core.Path.{◌≡◌, refl, sym, ap₂, ◌∙◌}
use mathlib.Core.Logic.{inl, inr, ∥∥₁_elim}
use mathlib.Core.Bool.{true, false}
use mathlib.Core.List.{List, [], ◌∷◌, Perm, Permᴰ}
use native.Mathlib.Omega.{arith}
use native.Mathlib.Decide.{ℕ_discrete}
use mathlib.Core.HLevel.{hedberg}
use cluster_api_provider_hcl.Base.Tests.{Bool-cases}
use cluster_api_provider_hcl.Base.Strings.{Text}
use cluster_api_provider_hcl.Base.Lists.{All}
use cluster_api_provider_hcl.Base.Sort.{
  str_le, insert, sort_strings, IsSorted, str_le_total, str_le_trans, str_le_antisymm,
}

insert-cons_le : (x y : Text) (l : List Text) → str_le x y ≡ true → insert x (y ∷ l) ≡ x ∷ y ∷ l
unfolding insert
insert-cons_le x y l h = rw h

insert-cons_gt :
    (x y : Text) (l : List Text) → str_le x y ≡ false → insert x (y ∷ l) ≡ y ∷ insert x l
unfolding insert
insert-cons_gt x y l h = rw h

-- Where both orders fail at once, totality is contradicted.
le_of_not : (x y : Text) → str_le x y ≡ false → str_le y x ≡ true
le_of_not x y h = elim (str_le_total x y) [ inl le ↦ cc | inr ge ↦ ge ]

insert_comm_le :
    (x y : Text) (l : List Text) → str_le x y ≡ true → insert x (insert y l) ≡ insert y (insert x l)
unfolding insert
insert_comm_le x y [] le = elim (Bool-cases (str_le y x)) [
  | inl ge ↦ let e = str_le_antisymm x y le ge in ap₂ (λ u v. insert u (insert v [])) e (sym e)
  | inr gt ↦ rw (le, gt)
]
insert_comm_le x y (z ∷ l) le = elim (Bool-cases (str_le y x)) [
  | inl ge ↦ let e = str_le_antisymm x y le ge in ap₂ (λ u v. insert u (insert v (z ∷ l))) e (sym e)
  | inr gt ↦ ground (arith, insert_comm_le x y l le, str_le_trans x y z)
]

insert_comm : (x y : Text) (l : List Text) → insert x (insert y l) ≡ insert y (insert x l)
insert_comm x y l = elim (str_le_total x y) [
  | inl le ↦ insert_comm_le x y l le
  | inr ge ↦ sym (insert_comm_le y x l ge)
]

sort_strings-permᴰ : {xs ys : List Text} → Permᴰ xs ys → sort_strings xs ≡ sort_strings ys
unfolding sort_strings
sort_strings-permᴰ Permᴰ.nil = refl
sort_strings-permᴰ (Permᴰ.cons e p) = ap₂ insert e (sort_strings-permᴰ p)
sort_strings-permᴰ (Permᴰ.swap {a} {b} {l = l} e f) =
    insert_comm a b (sort_strings l) ∙ ap₂ (λ u v. insert u (insert v (sort_strings l))) f e
sort_strings-permᴰ (Permᴰ.trans p q) = sort_strings-permᴰ p ∙ sort_strings-permᴰ q

Texts-discrete : Discrete (List Text)
Texts-discrete = hlevel ℕ_discrete

-- Two orders of one multiset sort to one list.
pub sort_strings-eq_of_perm : {xs ys : List Text} → Perm xs ys → sort_strings xs ≡ sort_strings ys
sort_strings-eq_of_perm p = ∥∥₁_elim p (hedberg Texts-discrete _ _) sort_strings-permᴰ

insert_of_All : (x : Text) (xs : List Text) → All (λ y. str_le x y ≡ true) xs → insert x xs ≡ x ∷ xs
unfolding insert
insert_of_All x [] h = refl
insert_of_All x (y ∷ ys) h = rw h.0

pub sort_strings_of_IsSorted : (xs : List Text) → IsSorted xs → sort_strings xs ≡ xs
unfolding sort_strings
sort_strings_of_IsSorted [] h = refl
sort_strings_of_IsSorted (x ∷ xs) h = rw (sort_strings_of_IsSorted xs h.1) (insert_of_All x xs h.0)
