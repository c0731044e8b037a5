-- ===== src/UserData/Stored.antt =====
-- The content of each file of user data, and what an update and a new entry make of it.
use cluster_api_provider_hcl.Base.{
  Text, false, Option, none, some, [], lookup, str_eq, str_eq_iff, str_eq_refl, if◌then◌else◌, ◌≡◌,
  ap, arith, Bool-cases, inl, inr,
}
use cluster_api_provider_hcl.Exec.{ok}
use cluster_api_provider_hcl.UserData.{
  Node, Nodes, content, next_node, path_key, content_key, get_write_files, find_file, modify_file,
  File, YamlLib, update_fields, apply_fields, nodes_append,
}
use cluster_api_provider_hcl.UserData.Pointers.{
  KeepsPaths, value_text, content-map_content, find_file-modify_file, find_file-modify_file_other,
}
use cluster_api_provider_hcl.UserData.Fields.{
  apply_fields-once, value_text-apply_fields, lookup-apply_fields,
}
use cluster_api_provider_hcl.UserData.Paths.{has_path_lem}
use cluster_api_provider_hcl.UserData.Entries.{
  IsEntry, AreEntries, find_file-IsEntry, find_file-has_path, has_path_unique,
  find_file-nodes_append, Avoids, given, update_fields-Unset, lookup-update_fields_path,
  lookup-update_fields_content,
}

-- The content behind a path among the entries of `write_files`.
unfoldable pub stored_in : Text → Nodes → Option Text
stored_in path files = elim (find_file path files) [
  | none ↦ none
  | some n ↦ value_text content_key (content n)
]

-- The entry of `write_files` behind a path.
unfoldable pub entry_at : Text → Node → Option Node
entry_at path document = elim (get_write_files (content document)) [
  | none ↦ none
  | some write_files ↦ find_file path (content write_files)
]

-- The abstract view of user data: the content of each file.
unfoldable pub stored : Text → Node → Option Text
unfolding stored_in
stored path document = elim (get_write_files (content document)) [
  | none ↦ none
  | some write_files ↦ stored_in path (content write_files)
]

-- Every entry of `write_files` has one path and one content.
pub record WellFormed (document : Node) : Type 0 where
  pub entries :
      (write_files : Node)
      → get_write_files (content document) ≡ some write_files
      → AreEntries (content write_files)

-- What sigs.k8s.io/yaml prints of a file, yaml.v3 reads as an entry with its path and content.
pub record PrintsFile (lib : YamlLib) (file : File) : Type 0 where
  pub reads :
      (file_yaml : Text) (file_node entry : Node)
      → lib.marshal file ≡ ok file_yaml
      → lib.decode file_yaml ≡ ok file_node
      → next_node (content file_node) ≡ some entry
      → IsEntry (content entry)
        × (value_text path_key (content entry) ≡ some file.path)
        × (value_text content_key (content entry) ≡ given file.file_content)

-- A file whose texts are not read as keys.
pub record IsPlain (file : File) : Type 0 where
  pub not_path : Avoids path_key file
  pub not_content : Avoids content_key file

module _ (file : File) (plain : IsPlain file) where
  abbrev pub updated : Nodes → Nodes
  updated ns = (apply_fields ns (update_fields file)).0

  pub updated-IsEntry : (ns : Nodes) → IsEntry ns → IsEntry (updated ns)
  updated-IsEntry ns e = record {
    one_path =
        apply_fields-once path_key ns (update_fields file)
          (update_fields-Unset path_key file plain.not_path) e.one_path;
    one_content =
        apply_fields-once content_key ns (update_fields file)
          (update_fields-Unset content_key file plain.not_content) e.one_content;
  }

  updated-KeepsPaths : (ns : Nodes) → IsEntry ns → KeepsPaths updated ns
  updated-KeepsPaths ns e = record {
    same = λ path. ground (
      arith,
      has_path_lem path ns e.one_path,
      has_path_lem path (updated ns) (updated-IsEntry ns e).one_path,
      value_text-apply_fields path_key ns (update_fields file)
          (update_fields-Unset path_key file plain.not_path) e.one_path,
      lookup-update_fields_path file,
    );
  }

  -- An update leaves the entries of other paths.
  pub find_file-updated_other :
      (files : Nodes) (path : Text)
      → AreEntries files
      → str_eq file.path path ≡ false
      → find_file path (modify_file file.path updated files) ≡ find_file path files
  find_file-updated_other files path a other =
      find_file-modify_file_other file.path path updated files
        (λ m e. updated-KeepsPaths (content m) (find_file-IsEntry file.path files m a e))
        (λ m e.
          has_path_unique file.path path (content m) (find_file-IsEntry file.path files m a e)
            (find_file-has_path file.path files m e) other)

  -- If no field is left over, the entry has the file's content.
  updated-content :
      (ns : Nodes) (c : Text)
      → IsEntry ns
      → given file.file_content ≡ some c
      → (apply_fields ns (update_fields file)).1 ≡ []
      → value_text content_key (updated ns) ≡ some c
  updated-content ns c e g done =
      unfold lookup in
      ground (
        arith,
        value_text-apply_fields content_key ns (update_fields file)
            (update_fields-Unset content_key file plain.not_content) e.one_content,
        lookup-update_fields_content file,
        lookup-apply_fields content_key ns (update_fields file) e.one_content,
        ap (lookup content_key) done,
      )

  -- An update of the entry of the file's path.
  pub stored_in-modify_file :
      (files : Nodes) (n : Node) (c path : Text)
      → AreEntries files
      → find_file file.path files ≡ some n
      → given file.file_content ≡ some c
      → (apply_fields (content n) (update_fields file)).1 ≡ []
      → stored_in path (modify_file file.path updated files)
        ≡ (if str_eq file.path path then some c else stored_in path files)
  unfolding stored_in
  stored_in-modify_file files n c path a found g done = elim (Bool-cases (str_eq file.path path)) [
    | inl same ↦
        let eq : file.path ≡ path = (str_eq_iff file.path path).0 same in
        rw (← eq) (
          ground (
            arith,
            find_file-modify_file file.path updated files keeps,
            str_eq_refl file.path,
            content-map_content updated n,
            updated-content (content n) c (entry n found) g done,
          ))
    | inr other ↦ ground (arith, find_file-updated_other files path a other)
  ]
    where
      entry : (m : Node) → find_file file.path files ≡ some m → IsEntry (content m)
      entry m e = find_file-IsEntry file.path files m a e

      keeps : (m : Node) → find_file file.path files ≡ some m → KeepsPaths updated (content m)
      keeps m e = updated-KeepsPaths (content m) (entry m e)

-- A new entry at the end.
pub stored_in-nodes_append :
    (file : File) (files : Nodes) (entry : Node) (c path : Text)
    → find_file file.path files ≡ none
    → IsEntry (content entry)
    → value_text path_key (content entry) ≡ some file.path
    → value_text content_key (content entry) ≡ some c
    → stored_in path (nodes_append files entry)
      ≡ (if str_eq file.path path then some c else stored_in path files)
unfolding stored_in
stored_in-nodes_append file files entry c path absent e p v = ground (
  arith,
  find_file-nodes_append path files entry,
  has_path_lem path (content entry) e.one_path,
  str_eq_iff file.path path,
)
