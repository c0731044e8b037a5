-- ===== src/UserData/Kept.antt =====
-- The entries that `SetOrUpdateFile` leaves alone.
use cluster_api_provider_hcl.Base.{
  Text, false, some, [], ◌∷◌, Dict, str_eq, ◌≡◌, refl, sym, ◌∙◌, arith, Option-cases, inl, inr,
}
use cluster_api_provider_hcl.Exec.{ok}
use cluster_api_provider_hcl.UserData.{
  Node, node, Nodes, content, map_content, path_key, get_write_files, modify_write_files, find_file,
  modify_file, File, YamlLib, update_fields, apply_fields, nodes_append, update_file,
  set_or_update_file,
}
use cluster_api_provider_hcl.UserData.Pointers.{
  value_text, content-map_content, get_write_files-modify_write_files,
}
use cluster_api_provider_hcl.UserData.Paths.{has_path_lem}
use cluster_api_provider_hcl.UserData.Entries.{IsEntry, AreEntries, find_file-nodes_append}
use cluster_api_provider_hcl.UserData.Stored.{
  entry_at, find_file-updated_other, WellFormed, PrintsFile, IsPlain, updated,
}
use cluster_api_provider_hcl.UserData.Branches.{
  set_without_write_files, set_new, set_found, add_file-Appends,
}

entry_at-map_content :
    (path : Text) (f : Nodes → Nodes) (document write_files : Node)
    → get_write_files (content document) ≡ some write_files
    → entry_at path (map_content (modify_write_files f) document)
      ≡ find_file path (f (content write_files))
unfolding entry_at
entry_at-map_content path f (node t v c) write_files w =
    ground (arith, get_write_files-modify_write_files f c, content-map_content f write_files)

entry_at_lem :
    (path : Text) (document write_files : Node)
    → get_write_files (content document) ≡ some write_files
    → entry_at path document ≡ find_file path (content write_files)
unfolding entry_at
entry_at_lem path document write_files w = rw (w, entry_at)

entry_at-update_file :
    (file : File) (plain : IsPlain file) (document write_files n : Node) (path : Text)
    → get_write_files (content document) ≡ some write_files
    → AreEntries (content write_files)
    → str_eq file.path path ≡ false
    → entry_at path (update_file file (content n) document).1 ≡ entry_at path document
unfolding update_file
entry_at-update_file file plain document write_files n path w a other =
    go (apply_fields (content n) (update_fields file)).1 refl
  where
    after :
        entry_at path
          (map_content (modify_write_files (modify_file file.path (updated file plain))) document)
        ≡ entry_at path document
    after =
        entry_at-map_content path (modify_file file.path (updated file plain)) document write_files
          w
        ∙ find_file-updated_other file plain (content write_files) path a other
        ∙ sym (entry_at_lem path document write_files w)

    go :
        (left : Dict Text)
        → (apply_fields (content n) (update_fields file)).1 ≡ left
        → entry_at path (update_file file (content n) document).1 ≡ entry_at path document
    go [] done = rw (done, update_file) after
    go (field ∷ more) left = rw (left, update_file) after

nodes_append_other :
    (file : File) (files : Nodes) (entry : Node) (path : Text)
    → IsEntry (content entry)
    → value_text path_key (content entry) ≡ some file.path
    → str_eq file.path path ≡ false
    → find_file path (nodes_append files entry) ≡ find_file path files
nodes_append_other file files entry path e p other =
    ground
      (arith, find_file-nodes_append path files entry, has_path_lem path (content entry) e.one_path)

-- The entries of the other paths stay as they are.
pub entry_at-set_or_update_file :
    (lib : YamlLib) (file : File) (document : Node)
    → IsPlain file
    → PrintsFile lib file
    → WellFormed document
    → (set_or_update_file lib file document).0 ≡ ok tt
    → (path : Text) → str_eq file.path path ≡ false
    → entry_at path (set_or_update_file lib file document).1 ≡ entry_at path document
entry_at-set_or_update_file lib file document plain prints well h path other =
    elim (Option-cases (get_write_files (content document))) [
      | inl absent ↦ rw (set_without_write_files lib file document absent)
      | inr (write_files, w) ↦ elim (Option-cases (find_file file.path (content write_files))) [
        | inl new ↦
            let same = set_new lib file document write_files w new in
            rw same (
              let (entry, a) =
                add_file-Appends lib file prints document write_files w (rw same at h) in
              rw (a.after_is) (
                entry_at-map_content path (λ files. nodes_append files entry) document write_files w
                ∙ nodes_append_other file (content write_files) entry path a.is_entry a.path_is
                    other
                ∙ sym (entry_at_lem path document write_files w)))
        | inr (n, found) ↦ rw (set_found lib file document write_files n w found) (
            entry_at-update_file file plain document write_files n path w
              (well.entries write_files w) other)
      ]
    ]
