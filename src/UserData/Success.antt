-- ===== src/UserData/Success.antt =====
-- When `SetOrUpdateFile` succeeds.
use cluster_api_provider_hcl.Base.{
  Text, true, some, [], ◌∷◌, lookup, erase, put, str_eq, str_eq_iff, ◌≡◌, refl, arith, Bool-cases,
  inl, inr,
}
use cluster_api_provider_hcl.Exec.{ok}
use cluster_api_provider_hcl.UserData.{
  Node, Nodes, nil, cons, value, content, content_key, get_file, File, YamlLib, put_nonempty,
  update_fields, apply_fields, update_file, set_or_update_file, value_of,
}
use cluster_api_provider_hcl.UserData.Pointers.{value_text}
use cluster_api_provider_hcl.UserData.Fields.{once, OncePair, once-pair, value_text_pair}

-- With no field to set, none is left over.
apply_no_fields : (ns : Nodes) → (apply_fields ns []).1 ≡ []
unfolding apply_fields lookup
apply_no_fields nil = refl
apply_no_fields (cons n nil) = refl
apply_no_fields (cons n (cons next rest)) = apply_no_fields rest

value_text_nil : (key t : Text) → value_text key nil ≡ some t → ⊥
unfolding value_text value_of
value_text_nil key t h = ground arith

value_text_last : (key t : Text) (n : Node) → value_text key (cons n nil) ≡ some t → ⊥
unfolding value_text value_of
value_text_last key t n h = ground arith

-- A single field is used up if its key is there.
apply_one_field :
    (key v t : Text) (ns : Nodes)
    → once key ns ≡ true
    → value_text key ns ≡ some t
    → (apply_fields ns ((key, v) ∷ [])).1 ≡ []
unfolding apply_fields lookup erase
apply_one_field key v t nil o h = absurd (value_text_nil key t h)
apply_one_field key v t (cons n nil) o h = absurd (value_text_last key t n h)
apply_one_field key v t (cons n (cons next rest)) o h = elim (Bool-cases (str_eq (value n) key)) [
  | inl here ↦
      ground (arith, str_eq_iff key (value n), str_eq_iff (value n) key, apply_no_fields rest)
  | inr later ↦ ground (
    arith,
    str_eq_iff key (value n),
    str_eq_iff (value n) key,
    value_text_pair key n next rest pair.value_other,
    apply_one_field key v t rest pair.later,
  )
]
  where
    pair : OncePair key n next rest
    pair = once-pair key n next rest o

update_fields_content :
    (file : File)
    → file.owner ≡ []
    → file.permissions ≡ []
    → update_fields file ≡ put_nonempty content_key file.file_content []
unfolding update_fields put_nonempty
update_fields_content file o p = rw (o, p)

-- A file without an owner and permissions is set wherever its entry has a content.
pub set_or_update_file_succeeds :
    (lib : YamlLib) (file : File) (document n : Node) (t : Text)
    → get_file file.path document ≡ ok (some n)
    → once content_key (content n) ≡ true
    → value_text content_key (content n) ≡ some t
    → file.owner ≡ []
    → file.permissions ≡ []
    → (set_or_update_file lib file document).0 ≡ ok tt
unfolding set_or_update_file update_file put
set_or_update_file_succeeds lib file document n t found o v owner permissions =
    rw (found, set_or_update_file) (rw (used, update_file))
  where
    used : (apply_fields (content n) (update_fields file)).1 ≡ []
    used = rw (update_fields_content file owner permissions) (go file.file_content)
      where
        go : (c : Text) → (apply_fields (content n) (put_nonempty content_key c [])).1 ≡ []
        go [] = apply_no_fields (content n)
        go (a ∷ c) = apply_one_field content_key (a ∷ c) t (content n) o v
