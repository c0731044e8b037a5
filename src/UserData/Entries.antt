-- ===== src/UserData/Entries.antt =====
-- Entries of `write_files` with one path and one content, and what an update leaves of them.
use cluster_api_provider_hcl.Base.{
  Text, text, true, false, Option, none, some, [], ◌∷◌, Dict, lookup, lookup-put, str_eq,
  str_eq_iff, if◌then◌else◌, ◌≡◌, refl, sym, ◌∙◌, arith, Bool-cases, inl, inr,
}
use cluster_api_provider_hcl.UserData.{
  Node, node, Nodes, nil, cons, content, has_path, path_key, content_key, find_file, modify_file,
  File, put_nonempty, update_fields, nodes_append,
}
use cluster_api_provider_hcl.UserData.Pointers.{value_text}
use cluster_api_provider_hcl.UserData.Fields.{once, Unset}
use cluster_api_provider_hcl.UserData.Paths.{has_path_lem}

-- An entry with one key `path` and one key `content`, neither of which is a value too.
pub record IsEntry (ns : Nodes) : Type 0 where
  pub one_path : once path_key ns ≡ true
  pub one_content : once content_key ns ≡ true

abbrev pub AreEntries : Nodes → Type 0
AreEntries nil = Unit
AreEntries (cons n rest) = IsEntry (content n) × AreEntries rest

pub find_file-IsEntry :
    (path : Text) (ns : Nodes) (n : Node)
    → AreEntries ns
    → find_file path ns ≡ some n
    → IsEntry (content n)
unfolding find_file
find_file-IsEntry path nil n a h = cc
find_file-IsEntry path (cons m rest) n a h = elim (Bool-cases (has_path path (content m))) [
  | inl here ↦ let same : m ≡ n = ground arith in rw (← same) (a.0)
  | inr later ↦ find_file-IsEntry path rest n a.1 (ground arith)
]

pub find_file-has_path :
    (path : Text) (ns : Nodes) (n : Node)
    → find_file path ns ≡ some n
    → has_path path (content n) ≡ true
unfolding find_file
find_file-has_path path nil n h = cc
find_file-has_path path (cons m rest) n h = elim (Bool-cases (has_path path (content m))) [
  | inl here ↦ let same : m ≡ n = ground arith in rw (← same) here
  | inr later ↦ find_file-has_path path rest n (ground arith)
]

-- An entry has one path.
pub has_path_unique :
    (path other : Text) (ns : Nodes)
    → IsEntry ns
    → has_path path ns ≡ true
    → str_eq path other ≡ false
    → has_path other ns ≡ false
has_path_unique path other ns e h d =
    go (value_text path_key ns) (sym (has_path_lem path ns e.one_path) ∙ h)
      (has_path_lem other ns e.one_path)
  where
    go :
        (t : Option Text)
        → elim t [ none ↦ false | some p ↦ str_eq p path ] ≡ true
        → has_path other ns ≡ elim t [ none ↦ false | some p ↦ str_eq p other ]
        → has_path other ns ≡ false
    go none k l = l
    go (some p) k l = ground (arith, str_eq_iff p path)

pub find_file-nodes_append :
    (path : Text) (ns : Nodes) (m : Node)
    → find_file path (nodes_append ns m) ≡ elim (find_file path ns) [
      | none ↦ if has_path path (content m) then some m else none
      | some n ↦ some n
    ]
unfolding find_file
find_file-nodes_append path nil m = refl
find_file-nodes_append path (cons n rest) m = ground (arith, find_file-nodes_append path rest m)

pub nodes_append-AreEntries :
    (ns : Nodes) (m : Node) → AreEntries ns → IsEntry (content m) → AreEntries (nodes_append ns m)
nodes_append-AreEntries nil m a e = (e, tt)
nodes_append-AreEntries (cons n rest) m a e = (a.0, nodes_append-AreEntries rest m a.1 e)

pub modify_file-AreEntries :
    (path : Text) (f : Nodes → Nodes) (ns : Nodes)
    → AreEntries ns
    → ((c : Nodes) → IsEntry c → IsEntry (f c))
    → AreEntries (modify_file path f ns)
unfolding modify_file
modify_file-AreEntries path f nil a k = tt
modify_file-AreEntries path f (cons (node t v c) rest) a k = elim (Bool-cases (has_path path c)) [
  | inl here ↦ rw here (k c a.0, a.1)
  | inr later ↦ rw later (a.0, modify_file-AreEntries path f rest a.1 k)
]

-- The file's texts are none of the keys by which entries are read.
pub record Avoids (key : Text) (file : File) : Type 0 where
  pub not_owner : str_eq file.owner key ≡ false
  pub not_permissions : str_eq file.permissions key ≡ false
  pub not_content : str_eq file.file_content key ≡ false

-- The text that an entry gets from a field of the file; an empty one is left alone.
abbrev pub given : Text → Option Text
given [] = none
given (c ∷ v) = some (c ∷ v)

lookup-put_nonempty :
    (j k v : Text) (m : Dict Text)
    → lookup j (put_nonempty k v m)
      ≡ (if str_eq k j then elim (given v) [ none ↦ lookup j m | some w ↦ some w ] else lookup j m)
unfolding put_nonempty
lookup-put_nonempty j k [] m = ground arith
lookup-put_nonempty j k (c ∷ v) m = lookup-put k j (c ∷ v) m

put_nonempty-Unset :
    (key k v : Text) (m : Dict Text)
    → Unset key m
    → str_eq v key ≡ false
    → Unset key (put_nonempty k v m)
unfolding put_nonempty
put_nonempty-Unset key k [] m u h = u
put_nonempty-Unset key k (c ∷ v) m u h = record {
  no_field = λ j w e. ground (arith, lookup-put k j (c ∷ v) m, u.no_field j w);
}

no_Unset : {key : Text} → Unset key []
unfolding lookup
no_Unset = record { no_field = λ j v h. cc }

pub update_fields-Unset :
    (key : Text) (file : File) → Avoids key file → Unset key (update_fields file)
unfolding update_fields
update_fields-Unset key file a =
    put_nonempty-Unset key _ file.owner _
      (put_nonempty-Unset key _ file.permissions _
        (put_nonempty-Unset key _ file.file_content _ no_Unset a.not_content) a.not_permissions)
      a.not_owner

pub lookup-update_fields_path : (file : File) → lookup path_key (update_fields file) ≡ none
unfolding update_fields lookup str_eq text
lookup-update_fields_path file = rw (
  lookup-put_nonempty path_key (text "owner"),
  lookup-put_nonempty path_key (text "permissions"),
  lookup-put_nonempty path_key content_key,
)

pub lookup-update_fields_content :
    (file : File) → lookup content_key (update_fields file) ≡ given file.file_content
unfolding update_fields lookup str_eq text
lookup-update_fields_content file =
    rw
      (
        lookup-put_nonempty content_key (text "owner"),
        lookup-put_nonempty content_key (text "permissions"),
        lookup-put_nonempty content_key content_key,
      )
      (ground arith)
