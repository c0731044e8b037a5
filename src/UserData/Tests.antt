-- ===== src/UserData/Tests.antt =====
-- Runs of the package on concrete documents.
use cluster_api_provider_hcl.Base.{
  Text, text, true, some, List, [], ◌∷◌, ◌++◌, map, lookup, put, erase, str_eq, ◌≡◌, refl,
  has_prefix, contains, if◌then◌else◌, arith, ap,
}
use cluster_api_provider_hcl.Exec.{not_found, Result, ok, err, Reply, success}
use cluster_api_provider_hcl.Server.Kubeadm.{InitConfiguration, KubeadmConfig}
use cluster_api_provider_hcl.UserData.{
  Node, node, nil, cons, value, path_key, content_key, get_write_files, find_file, has_path,
  value_of, File, YamlLib, set_or_update_file, get_file,
}
use cluster_api_provider_hcl.UserData.Pointers.{value_text}
use cluster_api_provider_hcl.UserData.Fields.{once, mentions}
use cluster_api_provider_hcl.UserData.Stored.{stored, WellFormed, PrintsFile, IsPlain}
use cluster_api_provider_hcl.UserData.Files.{stored-set_or_update_file}
use cluster_api_provider_hcl.UserData.Config.{
  KubeObject, init, KubeCodec, kubeadm_configuration_path_init, empty_config, kubeadm_file,
  get_kubeadm_config, set_kubeadm_config, join_texts, document_separator, encode_objects,
}
use cluster_api_provider_hcl.UserData.Encoding.{ReadsStream, AllEncode}
use cluster_api_provider_hcl.UserData.Roundtrip.{get-set_kubeadm_config}
use cluster_api_provider_hcl.UserData.Proxy.{skip_kube_proxy}
use cluster_api_provider_hcl.UserData.Proxy.Idempotent.{skip_kube_proxy-again}

abbrev scalar : Text → Node
scalar t = node [] t nil

abbrev entry : Text → Text → Node
entry path t =
    node [] [] (
      cons (scalar path_key) (cons (scalar path) (cons (scalar content_key) (cons (scalar t) nil))))

-- A printer and a parser that know files of one path.
abbrev yaml_of : Text → YamlLib
yaml_of path = record {
  decode = λ t. ok (node [] [] (cons (entry path t) nil));
  encode = λ n. ok (value n);
  marshal = λ f. ok f.file_content;
}

-- A codec that knows the empty configuration of a first control plane.
abbrev empty_init : InitConfiguration
empty_init = record { init_fields = [] }

decode_empty : Text → List (Reply KubeObject)
decode_empty (a ∷ b ∷ c ∷ d ∷ t) = success (init empty_init) ∷ decode_empty t
decode_empty t = []

encode_empty : InitConfiguration → Result Text
encode_empty o = elim (o.init_fields) [ [] ↦ ok [] | c ∷ t ↦ err not_found ]

abbrev codec : KubeCodec
codec = record {
  decode_stream = decode_empty;
  supports_yaml = true;
  encode_cluster = λ o. err not_found;
  encode_init = encode_empty;
  encode_join = λ o. err not_found;
}

encode_empty-ok :
    (o : InitConfiguration) (b : Text) → encode_empty o ≡ ok b → (o ≡ empty_init) × (b ≡ [])
unfolding encode_empty
encode_empty-ok o b h = ground arith

step :
    (o : InitConfiguration) (os : List KubeObject) (b : Text) (bs : List Text)
    → (o ≡ empty_init) × (b ≡ [])
    → decode_empty (join_texts (map (λ b. document_separator ++ b) bs)) ≡ map success os
    → decode_empty (join_texts ((document_separator ++ b) ∷ map (λ b. document_separator ++ b) bs))
      ≡ success (init o) ∷ map success os
unfolding decode_empty join_texts
step o os b bs (p, q) ih = rw (p, q) (ap (λ l. success (init empty_init) ∷ l) ih)

codec-ReadsStream : ReadsStream codec
codec-ReadsStream = record { reads = go }
  where
    go :
        (os : List KubeObject) (bs : List Text)
        → AllEncode codec os bs
        → decode_empty (join_texts (map (λ b. document_separator ++ b) bs)) ≡ map success os
    go [] [] h = unfold join_texts decode_empty in refl
    go [] (b ∷ bs) h = absurd h
    go (KubeObject.cluster o ∷ os) [] h = absurd h
    go (KubeObject.cluster o ∷ os) (b ∷ bs) h = cc
    go (init o ∷ os) [] h = absurd h
    go (init o ∷ os) (b ∷ bs) h = step o os b bs (encode_empty-ok o b h.0) (go os bs h.1)
    go (KubeObject.join o ∷ os) [] h = absurd h
    go (KubeObject.join o ∷ os) (b ∷ bs) h = cc
    go (KubeObject.unknown ∷ os) [] h = absurd h
    go (KubeObject.unknown ∷ os) (b ∷ bs) h = absurd h.0

abbrev files : Node
files = node [] [] (cons (entry kubeadm_configuration_path_init (32 ∷ [])) nil)

abbrev document : Node
document = node [] [] (
    cons
      (node [] [] (
        cons (scalar (text "write_files")) (
          cons files (
            cons (scalar (text "runcmd"))
              (cons (node [] [] (cons (scalar (text "kubeadm init  ")) nil)) nil)))))
      nil)

-- The flag takes the place of the spaces at the end of the command.
skip_kube_proxy_runs : (skip_kube_proxy document).0 ≡ ok tt
unfolding skip_kube_proxy str_eq has_prefix contains text
skip_kube_proxy_runs = refl

document-WellFormed : WellFormed document
unfolding get_write_files value_of str_eq text once mentions
document-WellFormed = record {
  entries = λ w h.
      let same : files ≡ w = cc in rw (← same) (record { one_path = refl; one_content = refl }, tt);
}

yaml-PrintsFile :
    (k : KubeadmConfig)
    → k.is_init ≡ true
    → (t : Text) → PrintsFile (yaml_of kubeadm_configuration_path_init) (kubeadm_file k (45 ∷ t))
unfolding kubeadm_file once mentions str_eq text value_text value_of
yaml-PrintsFile k i t = record {
  reads = λ y d e m r q.
      let text_is : 45 ∷ t ≡ y = cc in
      let node_is : node [] [] (cons (entry kubeadm_configuration_path_init y) nil) ≡ d = cc in
      let entry_is : entry kubeadm_configuration_path_init (45 ∷ t) ≡ e = ground arith in
      rw (← entry_is, i) (record { one_path = refl; one_content = refl }, refl, refl);
}

abbrev config : KubeadmConfig
config = record empty_config { init_configuration = some empty_init; is_init = true }

abbrev old_config : KubeadmConfig
old_config = record empty_config { is_init = true }

old_config_read : get_kubeadm_config codec document ≡ ok old_config
unfolding get_kubeadm_config str_eq text decode_empty
old_config_read = refl

document-stored : stored kubeadm_configuration_path_init document ≡ some (32 ∷ [])
unfolding stored get_write_files find_file value_text value_of str_eq text has_path
document-stored = refl

config_encoded : encode_objects codec config ≡ ok ((45 ∷ 45 ∷ 45 ∷ 10 ∷ []) ∷ [])
unfolding encode_objects encode_empty
config_encoded = refl

get-set_kubeadm_config_example :
    ((set_kubeadm_config codec (yaml_of kubeadm_configuration_path_init) config document).0 ≡ ok tt)
    × (get_kubeadm_config codec
          (set_kubeadm_config codec (yaml_of kubeadm_configuration_path_init) config document).1
        ≡ ok config)
get-set_kubeadm_config_example =
    get-set_kubeadm_config codec (yaml_of kubeadm_configuration_path_init) document old_config
      config (32 ∷ []) ((45 ∷ 45 ∷ 45 ∷ 10 ∷ []) ∷ []) document-WellFormed codec-ReadsStream
      (yaml-PrintsFile config refl) old_config_read (unfold kubeadm_file in document-stored) refl
      (λ e. cc) refl config_encoded

abbrev new_file : File
new_file = kubeadm_file config (45 ∷ 33 ∷ [])

new_file-IsPlain : IsPlain new_file
unfolding kubeadm_file str_eq text
new_file-IsPlain = record {
  not_path = record { not_owner = refl; not_permissions = refl; not_content = refl };
  not_content = record { not_owner = refl; not_permissions = refl; not_content = refl };
}

new_file_set :
    (set_or_update_file (yaml_of kubeadm_configuration_path_init) new_file document).0 ≡ ok tt
unfolding set_or_update_file get_file str_eq text kubeadm_file put lookup erase
new_file_set = refl

stored-set_or_update_file_example :
    stored kubeadm_configuration_path_init
      (set_or_update_file (yaml_of kubeadm_configuration_path_init) new_file document).1
    ≡ (if str_eq new_file.path kubeadm_configuration_path_init
        then some (45 ∷ 33 ∷ [])
        else stored kubeadm_configuration_path_init document)
stored-set_or_update_file_example =
    stored-set_or_update_file (yaml_of kubeadm_configuration_path_init) new_file document
      (45 ∷ 33 ∷ []) new_file-IsPlain (yaml-PrintsFile config refl (33 ∷ [])) document-WellFormed
      (unfold kubeadm_file in refl) new_file_set kubeadm_configuration_path_init

skip_kube_proxy-again_example :
    skip_kube_proxy (skip_kube_proxy document).1 ≡ skip_kube_proxy document
skip_kube_proxy-again_example = skip_kube_proxy-again document
