-- ===== src/BareMetal/Names.antt =====
-- The names of the machines of Robot: `cluster--type--name` for one that is attached to a cluster,
-- and `type--name` for a free one.
use cluster_api_provider_hcl.Base.{
  Text, text, ℕ, Bool, true, false, not, ◌&&◌, List, [], ◌∷◌, ◌++◌, ◌==◌, ◌≡◌, refl, arith, ap, ◌∙◌,
}

-- `delimiter`, which is `--`.
abbrev pub delimiter : Text
delimiter = 45 ∷ 45 ∷ []

abbrev pub cons_first : ℕ → List Text → List Text
cons_first a [] = (a ∷ []) ∷ []
cons_first a (p ∷ ps) = (a ∷ p) ∷ ps

-- `strings.Split(s, delimiter)`
unfoldable pub split_name : Text → List Text
split_name [] = [] ∷ []
split_name (a ∷ []) = (a ∷ []) ∷ []
split_name (a ∷ b ∷ s) = elim ((a == 45) && (b == 45)) [
  | true ↦ [] ∷ split_name s
  | false ↦ cons_first a (split_name (b ∷ s))
]

-- The name that `provisionMachine` gives to a machine.
unfoldable pub attached_name : Text → Text → Text → Text
attached_name cluster server_type machine =
    cluster ++ (delimiter ++ (server_type ++ (delimiter ++ machine)))

-- The name that `Delete` gives to a machine.
unfoldable pub unused_name : Text → Text → Text
unused_name server_type machine = server_type ++ (delimiter ++ (text "unused-" ++ machine))

-- No delimiter in the text.
unfoldable pub is_part : Text → Bool
is_part [] = true
is_part (a ∷ []) = true
is_part (a ∷ b ∷ s) = not ((a == 45) && (b == 45)) && is_part (b ∷ s)

-- No delimiter in the text, and none begun at its end.
unfoldable pub is_closed_part : Text → Bool
is_closed_part [] = true
is_closed_part (a ∷ []) = not (a == 45)
is_closed_part (a ∷ b ∷ s) = not ((a == 45) && (b == 45)) && is_closed_part (b ∷ s)

split_name-part : (p : Text) → is_part p ≡ true → split_name p ≡ p ∷ []
unfolding split_name is_part
split_name-part [] h = refl
split_name-part (a ∷ []) h = refl
split_name-part (a ∷ b ∷ s) h = ground (arith, split_name-part (b ∷ s))

split_name-delimiter : (s : Text) → split_name (delimiter ++ s) ≡ [] ∷ split_name s
unfolding split_name
split_name-delimiter s = refl

split_name-append :
    (p s : Text) → is_closed_part p ≡ true → split_name (p ++ (delimiter ++ s)) ≡ p ∷ split_name s
unfolding split_name is_closed_part
split_name-append [] s h = refl
split_name-append (a ∷ []) s h = ground arith
split_name-append (a ∷ b ∷ p) s h = ground (arith, split_name-append (b ∷ p) s)

-- The name of an attached machine is split into the cluster's name, the type and the machine's
-- name, for a cluster's name and a type without `--` and without a dash at their end, and a
-- machine's name without `--`.
pub split_name-attached_name :
    (cluster server_type machine : Text)
    → is_closed_part cluster ≡ true
    → is_closed_part server_type ≡ true
    → is_part machine ≡ true
    → split_name (attached_name cluster server_type machine) ≡ cluster ∷ server_type ∷ machine ∷ []
unfolding attached_name
split_name-attached_name cluster server_type machine c t m =
    split_name-append cluster (server_type ++ (delimiter ++ machine)) c
    ∙ ap (λ l. cluster ∷ l)
        (split_name-append server_type machine t
          ∙ ap (λ l. server_type ∷ l) (split_name-part machine m))

unused-is_part :
    (machine : Text) → is_part (45 ∷ machine) ≡ true → is_part (text "unused-" ++ machine) ≡ true
unfolding is_part text
unused-is_part machine h = h

-- The name of a machine that was given back is split into two parts, the first of which is the type,
-- for a type without `--` and without a dash at its end, and a machine's name without `--` and
-- without a dash at its start.
pub split_name-unused_name :
    (server_type machine : Text)
    → is_closed_part server_type ≡ true
    → is_part (45 ∷ machine) ≡ true
    → split_name (unused_name server_type machine) ≡ server_type ∷ (text "unused-" ++ machine) ∷ []
unfolding unused_name
split_name-unused_name server_type machine t m =
    split_name-append server_type (text "unused-" ++ machine) t
    ∙ ap (λ l. server_type ∷ l)
        (split_name-part (text "unused-" ++ machine) (unused-is_part machine m))
