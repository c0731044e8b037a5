-- ===== src/UserData.antt =====
-- The cloud-init user data of pkg/userdata/userdata.go: a tree of YAML nodes that the code edits in
-- place, the entries of `write_files`, and the command that starts the control plane.
-- A pointer to a node of the tree is the node's place, so a write through it is a function that
-- rebuilds the tree around that place.
pub mod Pointers
pub mod Fields
pub mod Paths
pub mod Entries
pub mod Stored
pub mod Branches
pub mod Files
pub mod Kept
pub mod Config
pub mod Encoding
pub mod Success
pub mod Reading
pub mod Roundtrip
pub mod Proxy
mod Tests
use cluster_api_provider_hcl.Base.{
  Text, text, Bool, true, false, ◌&&◌, ◌||◌, not, Option, none, some, is_some, List, [], ◌∷◌, ◌++◌,
  Dict, lookup, put, erase, str_eq, has_prefix, contains, if◌then◌else◌, ◌==◌,
}
use cluster_api_provider_hcl.Exec.{
  Error, failure, Result, ok, err, panic, Exec, pure, fail, of_result, gets, deref, modify, ◌>>=◌,
  ◌>>◌,
}

-- `yaml.Node`: its tag, which stands for the fields that the code leaves alone, its value and its
-- content.
mutual
  pub data Node : Type 0 where
    node : Text → Text → Nodes → Node

  pub data Nodes : Type 0 where
    nil : Nodes
    cons : Node → Nodes → Nodes

abbrev pub value : Node → Text
value (node t v c) = v

abbrev pub content : Node → Nodes
content (node t v c) = c

-- `n.Value = v`
abbrev pub with_value : Text → Node → Node
with_value v (node t w c) = node t v c

-- A write to `n.Content`.
abbrev pub map_content : (Nodes → Nodes) → Node → Node
map_content f (node t v c) = node t v (f c)

-- `nextNode` at a position, of the nodes that follow it.
abbrev pub next_node : Nodes → Option Node
next_node nil = none
next_node (cons n rest) = some n

-- The first node that follows a node with the value `key`: the loop over `l1.Content` of
-- `getWriteFiles`.
unfoldable pub value_of : Text → Nodes → Option Node
value_of key nil = none
value_of key (cons n rest) =
    let later = value_of key rest in
    if str_eq (value n) key && is_some (next_node rest) then next_node rest else later

-- A write to the content of that node.
unfoldable pub modify_value : Text → (Nodes → Nodes) → Nodes → Nodes
modify_value key f nil = nil
modify_value key f (cons n nil) = cons n nil
modify_value key f (cons n (cons next rest)) =
    let later = modify_value key f (cons next rest) in
    if str_eq (value n) key then cons n (cons (map_content f next) rest) else cons n later

abbrev pub write_files_key : Text
write_files_key = text "write_files"

abbrev pub path_key : Text
path_key = text "path"

abbrev pub content_key : Text
content_key = text "content"

-- `getWriteFiles`, of the document's content.
unfoldable pub get_write_files : Nodes → Option Node
unfolding value_of
get_write_files nil = none
get_write_files (cons l1 rest) = elim (value_of write_files_key (content l1)) [
  | none ↦ get_write_files rest
  | some n ↦ some n
]

-- A write to the content of the node that `getWriteFiles` returns.
unfoldable pub modify_write_files : (Nodes → Nodes) → Nodes → Nodes
unfolding value_of modify_value
modify_write_files f nil = nil
modify_write_files f (cons l1 rest) = elim (value_of write_files_key (content l1)) [
  | none ↦ cons l1 (modify_write_files f rest)
  | some n ↦ cons (map_content (modify_value write_files_key f) l1) rest
]

-- Whether some node `path` of an entry is followed by the path that is looked for.
unfoldable pub has_path : Text → Nodes → Bool
has_path path nil = false
has_path path (cons n nil) = false
has_path path (cons n (cons next rest)) =
    (str_eq (value n) path_key && str_eq (value next) path) || has_path path (cons next rest)

-- The loop of `getFile` over the entries of `write_files`.
unfoldable pub find_file : Text → Nodes → Option Node
unfolding has_path
find_file path nil = none
find_file path (cons l1 rest) =
    let later = find_file path rest in if has_path path (content l1) then some l1 else later

-- A write to the content of the entry that `getFile` returns.
unfoldable pub modify_file : Text → (Nodes → Nodes) → Nodes → Nodes
unfolding has_path
modify_file path f nil = nil
modify_file path f (cons l1 rest) =
    let later = modify_file path f rest in
    if has_path path (content l1) then cons (map_content f l1) rest else cons l1 later

abbrev pub no_write_files : Error
no_write_files = failure (text "write_files not found in cloud-init")

-- `getFile`: no entry is not an error, no `write_files` is one.
unfoldable pub get_file : Text → Node → Result (Option Node)
unfolding get_write_files find_file
get_file path document = elim (get_write_files (content document)) [
  | none ↦ err no_write_files
  | some write_files ↦ ok (find_file path (content write_files))
]

-- `bootstrapv1.File`
pub record File : Type 0 where
  pub path : Text
  pub owner : Text
  pub permissions : Text
  pub encoding : Text
  pub file_content : Text

-- The packages that read and print YAML: `Decode` and `Encode` of yaml.v3, and `Marshal` of
-- sigs.k8s.io/yaml.
pub record YamlLib : Type 0 where
  pub decode : Text → Result Node
  pub encode : Node → Result Text
  pub marshal : File → Result Text

-- `if len(v) > 0 { updateFields[k] = v }`
unfoldable pub put_nonempty : Text → Text → Dict Text → Dict Text
put_nonempty k [] m = m
put_nonempty k (c ∷ v) m = put k (c ∷ v) m

unfoldable pub update_fields : File → Dict Text
unfolding put_nonempty
update_fields file = put_nonempty (text "owner") file.owner (
    put_nonempty (text "permissions") file.permissions
      (put_nonempty content_key file.file_content []))

-- The loop over the even positions of an entry: what it leaves of the entry, and of `updateFields`.
unfoldable pub apply_fields : Nodes → Dict Text → Nodes × Dict Text
apply_fields nil fields = (nil, fields)
apply_fields (cons n nil) fields = (cons n nil, fields)
apply_fields (cons n (cons next rest)) fields = elim (lookup (value n) fields) [
  | none ↦ let (rest', fields') = apply_fields rest fields in (cons n (cons next rest'), fields')
  | some v ↦
      let (rest', fields') = apply_fields rest (erase (value n) fields) in
      (cons n (cons (with_value v next) rest'), fields')
]

abbrev pub nodes_append : Nodes → Node → Nodes
nodes_append nil m = cons m nil
nodes_append (cons n rest) m = cons n (nodes_append rest m)

abbrev pub missing_keys : Error
missing_keys = failure (text "existing file did not have %v keys")

-- `writeFiles.Content = append(writeFiles.Content, fileNode.Content[0])`
unfoldable pub append_entry : Node → Exec Node (Unit {0})
unfolding get_write_files modify_write_files
append_entry file_node = do
  write_files ← gets (λ document. get_write_files (content document))
  elim write_files [
    | none ↦ fail no_write_files
    | some _ ↦ (do
      entry ← deref (next_node (content file_node))
      modify (map_content (modify_write_files (λ files. nodes_append files entry))))
  ]

-- The branch `n == nil`: a new entry at the end of `write_files`.
unfoldable pub add_file : YamlLib → File → Exec Node (Unit {0})
unfolding append_entry
add_file lib file =
    of_result (lib.marshal file) >>= λ file_yaml. of_result (lib.decode file_yaml) >>= append_entry

-- The rest of `SetOrUpdateFile`, for an entry that is there.
unfoldable pub update_file : File → Nodes → Exec Node (Unit {0})
unfolding modify_write_files modify_file apply_fields update_fields
update_file file entry = do
  modify (
      map_content (
        modify_write_files
          (modify_file file.path (λ ns. (apply_fields ns (update_fields file)).0))))
  elim (apply_fields entry (update_fields file)).1 [
    | [] ↦ pure tt
    | left ∷ more ↦ fail missing_keys
  ]

unfoldable pub set_or_update_file : YamlLib → File → Exec Node (Unit {0})
unfolding get_file add_file update_file
set_or_update_file lib file = do
  found ← (λ document. (get_file file.path document, document))
  elim found [ none ↦ add_file lib file | some n ↦ update_file file (content n) ]
