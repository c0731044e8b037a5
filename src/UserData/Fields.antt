-- ===== src/UserData/Fields.antt =====
-- The loop of `SetOrUpdateFile` over the fields of an entry.
use cluster_api_provider_hcl.Base.{
  Text, Bool, true, false, ◌&&◌, ◌||◌, not, Option, none, some, Dict, lookup, erase, lookup-erase,
  str_eq, str_eq_iff, if◌then◌else◌, ◌≡◌, refl, arith, Option-cases, inl, inr,
}
use cluster_api_provider_hcl.UserData.{
  Node, node, Nodes, nil, cons, value, with_value, value_of, apply_fields,
}
use cluster_api_provider_hcl.UserData.Pointers.{value_text}

-- Whether any node has this value.
unfoldable pub mentions : Text → Nodes → Bool
mentions key nil = false
mentions key (cons n rest) = str_eq (value n) key || mentions key rest

-- The value stands at one even position at most, where a mapping has its keys.
unfoldable pub once : Text → Nodes → Bool
unfolding mentions
once key nil = true
once key (cons k nil) = not (str_eq (value k) key)
once key (cons k (cons v rest)) =
    let later = once key rest in
    not (str_eq (value v) key) && (if str_eq (value k) key then not (mentions key rest) else later)

abbrev pub override : Option Text → Option Text → Option Text
override new none = none
override none (some old) = some old
override (some new) (some old) = some new

-- Where the key is no value either, the text behind it is found pair by pair.
pub value_text_pair :
    (key : Text) (k v : Node) (rest : Nodes)
    → str_eq (value v) key ≡ false
    → value_text key (cons k (cons v rest))
      ≡ (if str_eq (value k) key then some (value v) else value_text key rest)
unfolding value_text value_of
value_text_pair key k v rest h = ground arith

value_text_absent : (key : Text) (ns : Nodes) → mentions key ns ≡ false → value_text key ns ≡ none
unfolding value_text value_of mentions
value_text_absent key nil h = refl
value_text_absent key (cons n rest) h = ground (arith, value_text_absent key rest)

once_absent : (key : Text) (ns : Nodes) → mentions key ns ≡ false → once key ns ≡ true
unfolding once mentions
once_absent key nil h = refl
once_absent key (cons k nil) h = ground arith
once_absent key (cons k (cons v rest)) h = ground (arith, once_absent key rest)

-- What `once` says of the first pair of an entry.
pub record OncePair (key : Text) (k v : Node) (rest : Nodes) : Type 0 where
  pub value_other : str_eq (value v) key ≡ false
  pub here : str_eq (value k) key ≡ true → mentions key rest ≡ false
  pub later : once key rest ≡ true

pub once-pair :
    (key : Text) (k v : Node) (rest : Nodes)
    → once key (cons k (cons v rest)) ≡ true
    → OncePair key k v rest
unfolding once
once-pair key k v rest h = record {
  value_other = ground arith;
  here = λ e. ground arith;
  later = ground (arith, once_absent key rest);
}

pair-once :
    (key : Text) (k v : Node) (rest : Nodes)
    → OncePair key k v rest
    → once key (cons k (cons v rest)) ≡ true
unfolding once
pair-once key k v rest p = ground (arith, p.here, p.later, p.value_other)

-- No field is set to this text.
pub record Unset (key : Text) (fields : Dict Text) : Type 0 where
  pub no_field : (j v : Text) → lookup j fields ≡ some v → str_eq v key ≡ false

Unset-erase : (key k : Text) (fields : Dict Text) → Unset key fields → Unset key (erase k fields)
Unset-erase key k fields u = record {
  no_field = λ j v h. u.no_field j v (ground (arith, lookup-erase k j fields));
}

value-with_value : (v : Text) (n : Node) → value (with_value v n) ≡ v
value-with_value v (node t w c) = refl

apply_fields-mentions :
    (key : Text) (ns : Nodes) (fields : Dict Text)
    → Unset key fields
    → mentions key ns ≡ false
    → mentions key (apply_fields ns fields).0 ≡ false
unfolding mentions apply_fields
apply_fields-mentions key nil fields u h = refl
apply_fields-mentions key (cons n nil) fields u h = h
apply_fields-mentions key (cons k (cons v rest)) fields u h =
    elim (Option-cases (lookup (value k) fields)) [
      | inl absent ↦ ground (arith, apply_fields-mentions key rest fields u)
      | inr (w, present) ↦ ground (
        arith,
        apply_fields-mentions key rest (erase (value k) fields)
            (Unset-erase key (value k) fields u),
        u.no_field (value k) w present,
        value-with_value w v,
      )
    ]

-- The loop keeps the place of a key.
pub apply_fields-once :
    (key : Text) (ns : Nodes) (fields : Dict Text)
    → Unset key fields
    → once key ns ≡ true
    → once key (apply_fields ns fields).0 ≡ true
unfolding apply_fields
apply_fields-once key nil fields u h = h
apply_fields-once key (cons n nil) fields u h = h
apply_fields-once key (cons k (cons v rest)) fields u h =
    elim (Option-cases (lookup (value k) fields)) [
      | inl absent ↦
          rw (absent, apply_fields)
            (pair-once key k v (apply_fields rest fields).0 (record {
              value_other = pair.value_other;
              here = λ e. apply_fields-mentions key rest fields u (pair.here e);
              later = apply_fields-once key rest fields u pair.later;
            }))
      | inr (w, present) ↦
          rw (present, apply_fields)
            (pair-once key k (with_value w v) (apply_fields rest (erase (value k) fields)).0
              (record {
                value_other = rw (value-with_value w v) (u.no_field (value k) w present);
                here = λ e.
                    apply_fields-mentions key rest (erase (value k) fields)
                      (Unset-erase key (value k) fields u) (pair.here e);
                later =
                    apply_fields-once key rest (erase (value k) fields)
                      (Unset-erase key (value k) fields u) pair.later;
              }))
    ]
  where
    pair : OncePair key k v rest
    pair = once-pair key k v rest h

-- Behind a key the loop leaves the field's text, if the key was there, and else what was there.
pub value_text-apply_fields :
    (key : Text) (ns : Nodes) (fields : Dict Text)
    → Unset key fields
    → once key ns ≡ true
    → value_text key (apply_fields ns fields).0 ≡ override (lookup key fields) (value_text key ns)
unfolding apply_fields
value_text-apply_fields key nil fields u h = unfold value_text value_of in ground arith
value_text-apply_fields key (cons n nil) fields u h = unfold value_text value_of in ground arith
value_text-apply_fields key (cons k (cons v rest)) fields u h =
    elim (Option-cases (lookup (value k) fields)) [
      | inl absent ↦ ground (
        arith,
        value_text_pair key k v rest pair.value_other,
        value_text_pair key k v (apply_fields rest fields).0 pair.value_other,
        value_text-apply_fields key rest fields u pair.later,
        str_eq_iff (value k) key,
      )
      | inr (w, present) ↦ ground (
        arith,
        value_text_pair key k v rest pair.value_other,
        value_text_pair key k (with_value w v) (apply_fields rest (erase (value k) fields)).0,
        value-with_value w v,
        u.no_field (value k) w present,
        value_text-apply_fields key rest (erase (value k) fields)
            (Unset-erase key (value k) fields u) pair.later,
        lookup-erase (value k) key fields,
        str_eq_iff (value k) key,
      )
    ]
  where
    pair : OncePair key k v rest
    pair = once-pair key k v rest h

-- A field whose key is not there is left over.
pub lookup-apply_fields :
    (key : Text) (ns : Nodes) (fields : Dict Text)
    → once key ns ≡ true
    → value_text key ns ≡ none
    → lookup key (apply_fields ns fields).1 ≡ lookup key fields
unfolding apply_fields
lookup-apply_fields key nil fields h n = refl
lookup-apply_fields key (cons k nil) fields h n = refl
lookup-apply_fields key (cons k (cons v rest)) fields h n =
    elim (Option-cases (lookup (value k) fields)) [
      | inl absent ↦ ground (
        arith,
        value_text_pair key k v rest pair.value_other,
        lookup-apply_fields key rest fields pair.later,
      )
      | inr (w, present) ↦ ground (
        arith,
        value_text_pair key k v rest pair.value_other,
        lookup-apply_fields key rest (erase (value k) fields) pair.later,
        lookup-erase (value k) key fields,
      )
    ]
  where
    pair : OncePair key k v rest
    pair = once-pair key k v rest h
