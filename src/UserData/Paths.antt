-- ===== src/UserData/Paths.antt =====
-- The test for the path of an entry.
use cluster_api_provider_hcl.Base.{
  Text, true, false, none, some, str_eq, ◌≡◌, refl, arith, Bool-cases, inl, inr,
}
use cluster_api_provider_hcl.UserData.{Node, Nodes, nil, cons, value, value_of, has_path, path_key}
use cluster_api_provider_hcl.UserData.Pointers.{value_text}
use cluster_api_provider_hcl.UserData.Fields.{mentions, once, OncePair, once-pair, value_text_pair}

-- Without a node `path` the entry has no path.
has_path_absent :
    (path : Text) (ns : Nodes) → mentions path_key ns ≡ false → has_path path ns ≡ false
unfolding has_path mentions
has_path_absent path nil h = refl
has_path_absent path (cons n nil) h = refl
has_path_absent path (cons n (cons next rest)) h =
    ground (arith, has_path_absent path (cons next rest))

has_path_skip :
    (path : Text) (v : Node) (rest : Nodes)
    → str_eq (value v) path_key ≡ false
    → has_path path (cons v rest) ≡ has_path path rest
unfolding has_path
has_path_skip path v nil h = refl
has_path_skip path v (cons n rest) h = ground arith

-- With one node `path`, the entry has the path behind it and no other.
pub has_path_lem :
    (path : Text) (ns : Nodes)
    → once path_key ns ≡ true
    → has_path path ns ≡ elim (value_text path_key ns) [ none ↦ false | some p ↦ str_eq p path ]
unfolding has_path
has_path_lem path nil h = unfold value_text value_of in refl
has_path_lem path (cons n nil) h = unfold value_text value_of in ground arith
has_path_lem path (cons k (cons v rest)) h = elim (Bool-cases (str_eq (value k) path_key)) [
  | inl named ↦ ground (
    arith,
    value_text_pair path_key k v rest pair.value_other,
    has_path_skip path v rest pair.value_other,
    has_path_absent path rest (pair.here named),
  )
  | inr other ↦ ground (
    arith,
    value_text_pair path_key k v rest pair.value_other,
    has_path_skip path v rest pair.value_other,
    has_path_lem path rest pair.later,
  )
]
  where
    pair : OncePair path_key k v rest
    pair = once-pair path_key k v rest h
