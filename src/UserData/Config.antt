-- ===== src/UserData/Config.antt =====
-- `GetKubeadmConfig` and `SetKubeadmConfig`: the kubeadm configuration in the file that cloud-init
-- writes for kubeadm.
use cluster_api_provider_hcl.Base.{
  Text, text, Bool, true, false, Option, none, some, List, [], ◌∷◌, ◌++◌, str_eq, if◌then◌else◌,
}
use cluster_api_provider_hcl.Exec.{
  failure, wrapped, Result, ok, err, panic, Reply, success, refusal, Exec, of_result, then_result,
  ◌>>=◌,
}
use cluster_api_provider_hcl.Server.Kubeadm.{
  ClusterConfiguration, InitConfiguration, JoinConfiguration, KubeadmConfig, UserData,
}
use cluster_api_provider_hcl.UserData.{
  Node, Nodes, nil, cons, value, content, content_key, get_file, File, YamlLib, set_or_update_file,
}

-- An object that the streaming decoder returns.
pub data KubeObject : Type 0 where
  cluster : ClusterConfiguration → KubeObject
  init : InitConfiguration → KubeObject
  join : JoinConfiguration → KubeObject
  unknown : KubeObject

-- The serializers of k8s.io/apimachinery: the results of `Decode` up to `io.EOF`, the support of
-- the media type, and `Encode`.
pub record KubeCodec : Type 0 where
  pub decode_stream : Text → List (Reply KubeObject)
  pub supports_yaml : Bool
  pub encode_cluster : ClusterConfiguration → Result Text
  pub encode_init : InitConfiguration → Result Text
  pub encode_join : JoinConfiguration → Result Text

abbrev pub kubeadm_configuration_path_init : Text
kubeadm_configuration_path_init = text "/tmp/kubeadm.yaml"

abbrev pub kubeadm_configuration_path_join : Text
kubeadm_configuration_path_join = text "/tmp/kubeadm-join-config.yaml"

-- `&KubeadmConfig{}`
abbrev pub empty_config : KubeadmConfig
empty_config = record {
  cluster_configuration = none;
  init_configuration = none;
  join_configuration = none;
  is_init = false;
}

-- The loop of `parseKubeadmConfig` over the decoder's results.
unfoldable pub parse_objects : List (Reply KubeObject) → KubeadmConfig → Result KubeadmConfig
parse_objects [] k = ok k
parse_objects (success (cluster o) ∷ rest) k =
    parse_objects rest (record k { cluster_configuration = some o })
parse_objects (success (init o) ∷ rest) k =
    parse_objects rest (record k { init_configuration = some o })
parse_objects (success (join o) ∷ rest) k =
    parse_objects rest (record k { join_configuration = some o })
parse_objects (success unknown ∷ rest) k = err (failure (text "unknown type during parse: %v"))
parse_objects (refusal e ∷ rest) k = err (wrapped (text "error during parse: %w") e)

unfoldable pub parse_kubeadm_config : KubeCodec → Text → Result KubeadmConfig
unfolding parse_objects
parse_kubeadm_config codec t = parse_objects (codec.decode_stream t) empty_config

-- The loop of `GetKubeadmConfig` over the nodes of the entry: the last content counts.
unfoldable pub parse_contents : KubeCodec → Nodes → KubeadmConfig → Result KubeadmConfig
unfolding parse_kubeadm_config
parse_contents codec nil k = ok k
parse_contents codec (cons n nil) k = ok k
parse_contents codec (cons n (cons next rest)) k = elim (str_eq (value n) content_key) [
  | true ↦ elim (parse_kubeadm_config codec (value next)) [
    | ok k' ↦ parse_contents codec (cons next rest) k'
    | err e ↦ err e
    | panic ↦ panic
  ]
  | false ↦ parse_contents codec (cons next rest) k
]

-- `kubeadmConfig.isInit = isInit`
abbrev pub marked : Bool → Result KubeadmConfig → Result KubeadmConfig
marked b (ok k) = ok (record k { is_init = b })
marked b (err e) = err e
marked b panic = panic

-- What follows the search for the file of a joining node.
abbrev pub load_join : KubeCodec → Result (Option Node) → Result KubeadmConfig
load_join codec (ok none) = marked true (ok empty_config)
load_join codec (ok (some n)) = marked false (parse_contents codec (content n) empty_config)
load_join codec (err e) = err e
load_join codec panic = panic

-- What follows the search for the file of the first control plane.
abbrev pub load_init :
    KubeCodec → Result (Option Node) → Result (Option Node) → Result KubeadmConfig
load_init codec (ok none) at_join = load_join codec at_join
load_init codec (ok (some n)) at_join = marked true (parse_contents codec (content n) empty_config)
load_init codec (err e) at_join = err e
load_init codec panic at_join = panic

unfoldable pub get_kubeadm_config : KubeCodec → Node → Result KubeadmConfig
unfolding get_file parse_contents
get_kubeadm_config codec document =
    load_init codec (get_file kubeadm_configuration_path_init document)
      (get_file kubeadm_configuration_path_join document)

-- `"---\n"`
abbrev pub document_separator : Text
document_separator = 45 ∷ 45 ∷ 45 ∷ 10 ∷ []

-- One of the three branches of `SetKubeadmConfig`, and `addObj`.
unfoldable pub encode_object :
    {A : Type 0} → (A → Result Text) → Option A → List Text → Result (List Text)
encode_object encode none objects = ok objects
encode_object encode (some o) objects = elim (encode o) [
  | ok b ↦ ok (objects ++ ((document_separator ++ b) ∷ []))
  | err e ↦ err (wrapped (text "error serializing %T: %w") e)
  | panic ↦ panic
]

-- `strings.Join(objects, "")`
unfoldable pub join_texts : List Text → Text
join_texts [] = []
join_texts (t ∷ ts) = t ++ join_texts ts

unfoldable pub encode_objects : KubeCodec → KubeadmConfig → Result (List Text)
unfolding encode_object
encode_objects codec k =
    then_result (encode_object codec.encode_cluster k.cluster_configuration []) λ objects.
      then_result (encode_object codec.encode_init k.init_configuration objects)
        λ more. encode_object codec.encode_join k.join_configuration more

-- The file that `SetKubeadmConfig` sets; `IsJoin` is the negation of `isInit`.
unfoldable pub kubeadm_file : KubeadmConfig → Text → File
kubeadm_file k t = record {
  path = if k.is_init then kubeadm_configuration_path_init else kubeadm_configuration_path_join;
  owner = [];
  permissions = [];
  encoding = [];
  file_content = t;
}

unfoldable pub set_kubeadm_config : KubeCodec → YamlLib → KubeadmConfig → Exec Node (Unit {0})
unfolding encode_objects join_texts kubeadm_file set_or_update_file
set_kubeadm_config codec lib k =
    of_result (
      if codec.supports_yaml
      then encode_objects codec k
      else err (failure (text "unsupported media type: %s")))
    >>= λ objects. set_or_update_file lib (kubeadm_file k (join_texts objects))

-- The document after a call, if the call succeeded.
abbrev document_of : Result (Unit {0}) → Node → Result Node
document_of (ok _) document = ok document
document_of (err e) document = err e
document_of panic document = panic

-- `NewFromReader`
unfoldable pub new_from_reader : YamlLib → Text → Result Node
new_from_reader lib t = elim (lib.decode t) [
  | ok document ↦ ok document
  | err e ↦ err (wrapped (text "error parsing YAML user-data: %w") e)
  | panic ↦ panic
]

-- The package as the server service uses it.
unfoldable pub user_data : KubeCodec → YamlLib → UserData Node
unfolding new_from_reader get_kubeadm_config set_kubeadm_config
user_data codec lib = record {
  new_from_reader = new_from_reader lib;
  get_kubeadm_config = get_kubeadm_config codec;
  set_kubeadm_config = λ document k.
      let (r, document') = set_kubeadm_config codec lib k document in document_of r document';
  write_yaml = lib.encode;
}
