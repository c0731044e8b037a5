-- ===== src/UserData/Branches.antt =====
-- What the branches of `SetOrUpdateFile` leave of the document.
use cluster_api_provider_hcl.Base.{
  Text, Option, none, some, [], ◌∷◌, Dict, str_eq, if◌then◌else◌, ◌≡◌, refl, sym, ap, ◌∙◌, arith,
}
use cluster_api_provider_hcl.Exec.{ok, err, of_result, ◌>>=◌}
use cluster_api_provider_hcl.Exec.Ensures.{bind-ok}
use cluster_api_provider_hcl.UserData.{
  Node, node, Nodes, content, map_content, next_node, path_key, content_key, get_write_files,
  modify_write_files, find_file, modify_file, get_file, File, YamlLib, update_fields, apply_fields,
  nodes_append, no_write_files, missing_keys, append_entry, add_file, update_file,
  set_or_update_file,
}
use cluster_api_provider_hcl.UserData.Pointers.{
  value_text, content-map_content, get_write_files-modify_write_files,
}
use cluster_api_provider_hcl.UserData.Entries.{IsEntry, AreEntries, given}
use cluster_api_provider_hcl.UserData.Stored.{
  stored, stored_in, PrintsFile, IsPlain, updated, stored_in-modify_file, stored_in-nodes_append,
}

-- What a successful append did.
append_entry-ok :
    (file_node document write_files : Node)
    → get_write_files (content document) ≡ some write_files
    → (append_entry file_node document).0 ≡ ok tt
    → (entry : Node) × (next_node (content file_node) ≡ some entry)
      × ((append_entry file_node document).1
          ≡ map_content (modify_write_files (λ files. nodes_append files entry)) document)
unfolding append_entry
append_entry-ok file_node document write_files w h = go (next_node (content file_node)) refl
  where
    go :
        (o : Option Node)
        → next_node (content file_node) ≡ o
        → (entry : Node) × (next_node (content file_node) ≡ some entry)
          × ((append_entry file_node document).1
              ≡ map_content (modify_write_files (λ files. nodes_append files entry)) document)
    go none q = ground arith
    go (some entry) q = (entry, q, rw (w, append_entry) (rw (q, append_entry)))

stored-map_content :
    (path : Text) (f : Nodes → Nodes) (document write_files : Node)
    → get_write_files (content document) ≡ some write_files
    → stored path (map_content (modify_write_files f) document)
      ≡ stored_in path (f (content write_files))
unfolding stored
stored-map_content path f (node t v c) write_files w =
    ground (arith, get_write_files-modify_write_files f c, content-map_content f write_files)

stored_lem :
    (path : Text) (document write_files : Node)
    → get_write_files (content document) ≡ some write_files
    → stored path document ≡ stored_in path (content write_files)
unfolding stored
stored_lem path document write_files w = rw (w, stored)

-- What `add_file` appends.
pub record Appends (file : File) (document entry after : Node) : Type 0 where
  pub is_entry : IsEntry (content entry)
  pub path_is : value_text path_key (content entry) ≡ some file.path
  pub content_is : value_text content_key (content entry) ≡ given file.file_content
  pub after_is :
      after ≡ map_content (modify_write_files (λ files. nodes_append files entry)) document

module _ (lib : YamlLib) (file : File) (prints : PrintsFile lib file) where
  pub add_file-Appends :
      (document write_files : Node)
      → get_write_files (content document) ≡ some write_files
      → (add_file lib file document).0 ≡ ok tt
      → (entry : Node) × Appends file document entry (add_file lib file document).1
  unfolding add_file
  add_file-Appends document write_files w h =
      let (file_yaml, m, h1, e1) =
        bind-ok (of_result (lib.marshal file))
          (λ file_yaml. of_result (lib.decode file_yaml) >>= append_entry) document tt h in
      let (file_node, d, h2, e2) =
        bind-ok (of_result (lib.decode file_yaml)) append_entry document tt h1 in
      let (entry, q, a) = append_entry-ok file_node document write_files w h2 in
      let (e, p, v) = prints.reads file_yaml file_node entry m d q in
      (entry, record { is_entry = e; path_is = p; content_is = v; after_is = e1 ∙ e2 ∙ a })

  pub stored-add_file :
      (document write_files : Node) (c path : Text)
      → get_write_files (content document) ≡ some write_files
      → find_file file.path (content write_files) ≡ none
      → given file.file_content ≡ some c
      → (add_file lib file document).0 ≡ ok tt
      → stored path (add_file lib file document).1
        ≡ (if str_eq file.path path then some c else stored path document)
  stored-add_file document write_files c path w absent g h =
      let (entry, a) = add_file-Appends document write_files w h in
      ap (stored path) a.after_is
      ∙ stored-map_content path (λ files. nodes_append files entry) document write_files w
      ∙ stored_in-nodes_append file (content write_files) entry c path absent a.is_entry a.path_is
          (a.content_is ∙ g)
      ∙ ap (λ t. if str_eq file.path path then some c else t)
          (sym (stored_lem path document write_files w))

module _ (file : File) (plain : IsPlain file) where
  pub stored-update_file :
      (document write_files n : Node) (c path : Text)
      → get_write_files (content document) ≡ some write_files
      → AreEntries (content write_files)
      → find_file file.path (content write_files) ≡ some n
      → given file.file_content ≡ some c
      → (update_file file (content n) document).0 ≡ ok tt
      → stored path (update_file file (content n) document).1
        ≡ (if str_eq file.path path then some c else stored path document)
  unfolding update_file
  stored-update_file document write_files n c path w a found g h =
      go ((apply_fields (content n) (update_fields file)).1) refl
    where
      go :
          (left : Dict Text)
          → (apply_fields (content n) (update_fields file)).1 ≡ left
          → stored path (update_file file (content n) document).1
            ≡ (if str_eq file.path path then some c else stored path document)
      go [] done =
          rw (done, update_file)
            (stored-map_content path (modify_file file.path (updated file plain)) document
                write_files w
              ∙ stored_in-modify_file file plain (content write_files) n c path a found g done
              ∙ ap (λ t. if str_eq file.path path then some c else t)
                  (sym (stored_lem path document write_files w)))
      go (field ∷ more) left =
          let refused : err missing_keys ≡ ok tt = rw (left, update_file) at h in cc

get_file_lem :
    (path : Text) (document write_files : Node)
    → get_write_files (content document) ≡ some write_files
    → get_file path document ≡ ok (find_file path (content write_files))
unfolding get_file
get_file_lem path document write_files w = rw (w, get_file)

module _ (lib : YamlLib) (file : File) (document : Node) where
  -- Without `write_files` nothing is written.
  pub set_without_write_files :
      get_write_files (content document) ≡ none
      → set_or_update_file lib file document ≡ (err no_write_files, document)
  unfolding set_or_update_file get_file
  set_without_write_files w = ground arith

  pub set_new :
      (write_files : Node)
      → get_write_files (content document) ≡ some write_files
      → find_file file.path (content write_files) ≡ none
      → set_or_update_file lib file document ≡ add_file lib file document
  unfolding set_or_update_file
  set_new write_files w new =
      let found : get_file file.path document ≡ ok none =
        get_file_lem file.path document write_files w ∙ ap ok new in
      rw (found, set_or_update_file)

  pub set_found :
      (write_files n : Node)
      → get_write_files (content document) ≡ some write_files
      → find_file file.path (content write_files) ≡ some n
      → set_or_update_file lib file document ≡ update_file file (content n) document
  unfolding set_or_update_file
  set_found write_files n w here =
      let found : get_file file.path document ≡ ok (some n) =
        get_file_lem file.path document write_files w ∙ ap ok here in
      rw (found, set_or_update_file)
