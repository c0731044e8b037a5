-- ===== src/UserData/Reading.antt =====
-- What `GetKubeadmConfig` reads of a document.
use cluster_api_provider_hcl.Base.{
  Text, Bool, true, false, Option, none, some, str_eq, ◌≡◌, refl, ap, arith, Bool-cases, inl, inr,
}
use cluster_api_provider_hcl.Exec.{Result, ok, err, panic}
use cluster_api_provider_hcl.Server.Kubeadm.{KubeadmConfig}
use cluster_api_provider_hcl.UserData.{
  Node, Nodes, nil, cons, value, content, content_key, get_write_files, get_file, find_file,
  value_of,
}
use cluster_api_provider_hcl.UserData.Pointers.{value_text}
use cluster_api_provider_hcl.UserData.Fields.{once, mentions, OncePair, once-pair, value_text_pair}
use cluster_api_provider_hcl.UserData.Entries.{IsEntry, find_file-IsEntry}
use cluster_api_provider_hcl.UserData.Stored.{stored, stored_in, entry_at, WellFormed}
use cluster_api_provider_hcl.UserData.Config.{
  KubeCodec, kubeadm_configuration_path_init, kubeadm_configuration_path_join, empty_config,
  parse_kubeadm_config, parse_contents, marked, load_init, get_kubeadm_config,
}

parse_contents_absent :
    (codec : KubeCodec) (ns : Nodes) (k : KubeadmConfig)
    → mentions content_key ns ≡ false
    → parse_contents codec ns k ≡ ok k
unfolding parse_contents mentions
parse_contents_absent codec nil k h = refl
parse_contents_absent codec (cons n nil) k h = refl
parse_contents_absent codec (cons n (cons next rest)) k h =
    ground (arith, parse_contents_absent codec (cons next rest) k)

parse_contents_skip :
    (codec : KubeCodec) (n : Node) (rest : Nodes) (k : KubeadmConfig)
    → str_eq (value n) content_key ≡ false
    → parse_contents codec (cons n rest) k ≡ parse_contents codec rest k
unfolding parse_contents
parse_contents_skip codec n nil k h = refl
parse_contents_skip codec n (cons next rest) k h = rw (h, parse_contents)

-- In an entry with one content, the loop parses that content.
pub parse_contents_lem :
    (codec : KubeCodec) (ns : Nodes) (k j : KubeadmConfig) (t : Text)
    → once content_key ns ≡ true
    → value_text content_key ns ≡ some t
    → parse_kubeadm_config codec t ≡ ok j
    → parse_contents codec ns k ≡ ok j
unfolding parse_contents
parse_contents_lem codec nil k j t o v p = unfold value_text value_of in ground arith
parse_contents_lem codec (cons n nil) k j t o v p = unfold value_text value_of in ground arith
parse_contents_lem codec (cons n (cons next rest)) k j t o v p =
    elim (Bool-cases (str_eq (value n) content_key)) [
      | inl here ↦ ground (
        arith,
        value_text_pair content_key n next rest pair.value_other,
        parse_contents_skip codec next rest j pair.value_other,
        parse_contents_absent codec rest j (pair.here here),
      )
      | inr later ↦ ground (
        arith,
        value_text_pair content_key n next rest pair.value_other,
        parse_contents_skip codec next rest k pair.value_other,
        parse_contents_lem codec rest k j t pair.later,
      )
    ]
  where
    pair : OncePair content_key n next rest
    pair = once-pair content_key n next rest o

-- A file with a content is found.
pub get_file_of_stored :
    (path : Text) (document : Node) (c : Text)
    → WellFormed document
    → stored path document ≡ some c
    → (n : Node) × (get_file path document ≡ ok (some n))
      × IsEntry (content n)
      × (value_text content_key (content n) ≡ some c)
unfolding stored get_file stored_in
get_file_of_stored path document c well h = go_files (get_write_files (content document)) refl
  where
    go_entry :
        (write_files : Node)
        → get_write_files (content document) ≡ some write_files
        → (o : Option Node) → find_file path (content write_files) ≡ o
        → (n : Node) × (get_file path document ≡ ok (some n))
          × IsEntry (content n)
          × (value_text content_key (content n) ≡ some c)
    go_entry write_files w none f = absurd (ground arith)
    go_entry write_files w (some n) f = (
      n,
      rw (w, get_file) (ap ok f),
      find_file-IsEntry path (content write_files) n (well.entries write_files w) f,
      ground arith,
    )

    go_files :
        (o : Option Node)
        → get_write_files (content document) ≡ o
        → (n : Node) × (get_file path document ≡ ok (some n))
          × IsEntry (content n)
          × (value_text content_key (content n) ≡ some c)
    go_files none w = absurd (ground arith)
    go_files (some write_files) w =
        go_entry write_files w (find_file path (content write_files)) refl

-- Where one file is found, the search for another ends too.
pub get_file-entry_at :
    (path other : Text) (document n : Node)
    → get_file path document ≡ ok (some n)
    → get_file other document ≡ ok (entry_at other document)
unfolding get_file entry_at
get_file-entry_at path other document n h = ground arith

marked-is_init :
    (b : Bool) (r : Result KubeadmConfig) (k : KubeadmConfig) → marked b r ≡ ok k → k.is_init ≡ b
marked-is_init b (ok j) k h = ground arith
marked-is_init b (err e) k h = cc
marked-is_init b panic k h = cc

-- A configuration that is read as that of a joining node: no file of a first control plane.
pub get-not_init :
    (codec : KubeCodec) (document : Node) (k : KubeadmConfig)
    → get_kubeadm_config codec document ≡ ok k
    → k.is_init ≡ false
    → entry_at kubeadm_configuration_path_init document ≡ none
unfolding get_kubeadm_config
get-not_init codec document k h j = go (get_file kubeadm_configuration_path_init document) refl h
  where
    go :
        (r : Result (Option Node))
        → get_file kubeadm_configuration_path_init document ≡ r
        → load_init codec r (get_file kubeadm_configuration_path_join document) ≡ ok k
        → entry_at kubeadm_configuration_path_init document ≡ none
    go (ok none) q l = unfold get_file entry_at in ground arith
    go (ok (some n)) q l =
        let init : k.is_init ≡ true =
          marked-is_init true (parse_contents codec (content n) empty_config) k l in
        cc
    go (err e) q l = cc
    go panic q l = cc

-- The configuration that is read when one of the two files is there.
pub get_kubeadm_config_init :
    (codec : KubeCodec) (document n : Node) (j : KubeadmConfig)
    → get_file kubeadm_configuration_path_init document ≡ ok (some n)
    → parse_contents codec (content n) empty_config ≡ ok j
    → get_kubeadm_config codec document ≡ ok (record j { is_init = true })
unfolding get_kubeadm_config
get_kubeadm_config_init codec document n j q p = ground arith

pub get_kubeadm_config_join :
    (codec : KubeCodec) (document n : Node) (j : KubeadmConfig)
    → get_file kubeadm_configuration_path_init document ≡ ok none
    → get_file kubeadm_configuration_path_join document ≡ ok (some n)
    → parse_contents codec (content n) empty_config ≡ ok j
    → get_kubeadm_config codec document ≡ ok (record j { is_init = false })
unfolding get_kubeadm_config
get_kubeadm_config_join codec document n j a q p = ground arith
