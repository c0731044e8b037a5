-- ===== src/UserData/Files.antt =====
-- `SetOrUpdateFile` as an update of a map from paths to contents.
use cluster_api_provider_hcl.Base.{
  Text, some, [], ◌∷◌, Dict, str_eq, if◌then◌else◌, ◌≡◌, refl, arith, Option-cases, inl, inr,
}
use cluster_api_provider_hcl.Exec.{ok, err}
use cluster_api_provider_hcl.UserData.{
  Node, node, Nodes, content, map_content, get_write_files, modify_write_files, find_file,
  modify_file, File, YamlLib, update_fields, apply_fields, nodes_append, no_write_files,
  update_file, set_or_update_file,
}
use cluster_api_provider_hcl.UserData.Pointers.{
  content-map_content, get_write_files-modify_write_files,
}
use cluster_api_provider_hcl.UserData.Entries.{
  AreEntries, nodes_append-AreEntries, modify_file-AreEntries, given,
}
use cluster_api_provider_hcl.UserData.Stored.{
  stored, WellFormed, PrintsFile, IsPlain, updated, updated-IsEntry,
}
use cluster_api_provider_hcl.UserData.Branches.{
  set_without_write_files, set_new, set_found, add_file-Appends, stored-add_file,
  stored-update_file,
}

WellFormed-map_content :
    (f : Nodes → Nodes) (document write_files : Node)
    → get_write_files (content document) ≡ some write_files
    → AreEntries (f (content write_files))
    → WellFormed (map_content (modify_write_files f) document)
WellFormed-map_content f (node t v c) write_files w a = record {
  entries = λ after e.
      let same : map_content f write_files ≡ after =
        ground (arith, get_write_files-modify_write_files f c) in
      rw (← same) (rw (content-map_content f write_files) a);
}

update_file-WellFormed :
    (file : File) (plain : IsPlain file) (document write_files n : Node)
    → get_write_files (content document) ≡ some write_files
    → AreEntries (content write_files)
    → WellFormed (update_file file (content n) document).1
unfolding update_file
update_file-WellFormed file plain document write_files n w a =
    go (apply_fields (content n) (update_fields file)).1 refl
  where
    after :
        WellFormed
          (map_content (modify_write_files (modify_file file.path (updated file plain))) document)
    after =
        WellFormed-map_content (modify_file file.path (updated file plain)) document write_files w (
          modify_file-AreEntries file.path (updated file plain) (content write_files) a
            (updated-IsEntry file plain))

    go :
        (left : Dict Text)
        → (apply_fields (content n) (update_fields file)).1 ≡ left
        → WellFormed (update_file file (content n) document).1
    go [] done = rw (done, update_file) after
    go (field ∷ more) left = rw (left, update_file) after

-- A successful `SetOrUpdateFile` of a file with a content sets the content of its path, and leaves
-- the content of every other path.
pub stored-set_or_update_file :
    (lib : YamlLib) (file : File) (document : Node) (c : Text)
    → IsPlain file
    → PrintsFile lib file
    → WellFormed document
    → given file.file_content ≡ some c
    → (set_or_update_file lib file document).0 ≡ ok tt
    → (path : Text)
    → stored path (set_or_update_file lib file document).1
      ≡ (if str_eq file.path path then some c else stored path document)
stored-set_or_update_file lib file document c plain prints well g h path =
    elim (Option-cases (get_write_files (content document))) [
      | inl absent ↦
          let refused : err no_write_files ≡ ok tt =
            rw (set_without_write_files lib file document absent) at h in
          cc
      | inr (write_files, w) ↦ elim (Option-cases (find_file file.path (content write_files))) [
        | inl new ↦
            let same = set_new lib file document write_files w new in
            rw same
              (stored-add_file lib file prints document write_files c path w new g (rw same at h))
        | inr (n, found) ↦
            let same = set_found lib file document write_files n w found in
            rw same (
              stored-update_file file plain document write_files n c path w
                (well.entries write_files w) found g (rw same at h))
      ]
    ]

-- A successful `SetOrUpdateFile` keeps one path and one content in every entry.
pub set_or_update_file-WellFormed :
    (lib : YamlLib) (file : File) (document : Node)
    → IsPlain file
    → PrintsFile lib file
    → WellFormed document
    → (set_or_update_file lib file document).0 ≡ ok tt
    → WellFormed (set_or_update_file lib file document).1
set_or_update_file-WellFormed lib file document plain prints well h =
    elim (Option-cases (get_write_files (content document))) [
      | inl absent ↦ rw (set_without_write_files lib file document absent) well
      | inr (write_files, w) ↦ elim (Option-cases (find_file file.path (content write_files))) [
        | inl new ↦
            let same = set_new lib file document write_files w new in
            rw same (
              let (entry, a) =
                add_file-Appends lib file prints document write_files w (rw same at h) in
              rw (a.after_is) (
                WellFormed-map_content (λ files. nodes_append files entry) document write_files w
                  (nodes_append-AreEntries (content write_files) entry (well.entries write_files w)
                    a.is_entry)))
        | inr (n, found) ↦ rw (set_found lib file document write_files n w found) (
            update_file-WellFormed file plain document write_files n w (well.entries write_files w))
      ]
    ]
