-- ===== src/UserData/Roundtrip.antt =====
-- Reading a kubeadm configuration back after it was written.
use mathlib.Core.Path.{subst}
use cluster_api_provider_hcl.Base.{
  Text, text, Bool, true, false, none, some, List, [], ◌∷◌, str_eq, str_eq_refl, ◌≡◌, ◌≢◌, refl,
  sym, ap, ◌∙◌, arith, if◌then◌else◌,
}
use cluster_api_provider_hcl.Exec.{failure, ok, err, of_result}
use cluster_api_provider_hcl.Exec.Ensures.{bind-ok}
use cluster_api_provider_hcl.Server.Kubeadm.{KubeadmConfig}
use cluster_api_provider_hcl.UserData.{Node, content, get_file, File, YamlLib, set_or_update_file}
use cluster_api_provider_hcl.UserData.Stored.{stored, entry_at, WellFormed, PrintsFile, IsPlain}
use cluster_api_provider_hcl.UserData.Files.{
  stored-set_or_update_file, set_or_update_file-WellFormed,
}
use cluster_api_provider_hcl.UserData.Kept.{entry_at-set_or_update_file}
use cluster_api_provider_hcl.UserData.Config.{
  KubeCodec, kubeadm_configuration_path_init, kubeadm_configuration_path_join, empty_config,
  parse_kubeadm_config, parse_contents, get_kubeadm_config, join_texts, encode_objects,
  kubeadm_file, set_kubeadm_config,
}
use cluster_api_provider_hcl.UserData.Encoding.{
  ReadsStream, objects_of, parse-encode_objects, encode_objects-nonempty,
}
use cluster_api_provider_hcl.UserData.Reading.{
  parse_contents_lem, get_file_of_stored, get_file-entry_at, get-not_init, get_kubeadm_config_init,
  get_kubeadm_config_join,
}
use cluster_api_provider_hcl.UserData.Success.{set_or_update_file_succeeds}

-- The file that a configuration is written to is plain.
kubeadm_file-IsPlain : (k : KubeadmConfig) (t : Text) → IsPlain (kubeadm_file k (45 ∷ t))
unfolding kubeadm_file str_eq text
kubeadm_file-IsPlain k t = record {
  not_path = record { not_owner = refl; not_permissions = refl; not_content = refl };
  not_content = record { not_owner = refl; not_permissions = refl; not_content = refl };
}

kubeadm_file-init :
    (k : KubeadmConfig) (t : Text)
    → k.is_init ≡ true
    → (kubeadm_file k (45 ∷ t)).path ≡ kubeadm_configuration_path_init
unfolding kubeadm_file
kubeadm_file-init k t i = ground arith

kubeadm_file-join :
    (k : KubeadmConfig) (t : Text)
    → k.is_init ≡ false
    → (kubeadm_file k (45 ∷ t)).path ≡ kubeadm_configuration_path_join
unfolding kubeadm_file
kubeadm_file-join k t i = ground arith

paths_differ : str_eq kubeadm_configuration_path_join kubeadm_configuration_path_init ≡ false
unfolding str_eq text
paths_differ = refl

-- Once the file is set, the configuration that is read is the one whose objects it holds.
get-set_file :
    (codec : KubeCodec) (lib : YamlLib) (document : Node) (k : KubeadmConfig) (t : Text)
    → WellFormed document
    → PrintsFile lib (kubeadm_file k (45 ∷ t))
    → parse_kubeadm_config codec (45 ∷ t) ≡ ok (record k { is_init = false })
    → (k.is_init ≡ false → entry_at kubeadm_configuration_path_init document ≡ none)
    → (set_or_update_file lib (kubeadm_file k (45 ∷ t)) document).0 ≡ ok tt
    → get_kubeadm_config codec (set_or_update_file lib (kubeadm_file k (45 ∷ t)) document).1 ≡ ok k
get-set_file codec lib document k t well prints parse absent h =
    let (n, q, e, v) =
      get_file_of_stored file.path after (45 ∷ t)
        (set_or_update_file-WellFormed lib file document plain prints well h) at_path in
    go n q (parse_contents_lem codec (content n) empty_config _ (45 ∷ t) e.one_content v parse)
      k.is_init refl
  where
    file : File
    file = kubeadm_file k (45 ∷ t)

    after : Node
    after = (set_or_update_file lib file document).1

    plain : IsPlain file
    plain = kubeadm_file-IsPlain k t

    at_path : stored file.path after ≡ some (45 ∷ t)
    at_path =
        stored-set_or_update_file lib file document (45 ∷ t) plain prints well
          (unfold kubeadm_file in refl) h file.path
        ∙ rw (str_eq_refl file.path)

    go :
        (n : Node)
        → get_file file.path after ≡ ok (some n)
        → parse_contents codec (content n) empty_config ≡ ok (record k { is_init = false })
        → (b : Bool) → k.is_init ≡ b
        → get_kubeadm_config codec after ≡ ok k
    go n q p true i =
        let here : get_file kubeadm_configuration_path_init after ≡ ok (some n) =
          ap (λ p. get_file p after) (sym (kubeadm_file-init k t i)) ∙ q in
        get_kubeadm_config_init codec after n _ here p ∙ ground arith
    go n q p false i =
        let here : get_file kubeadm_configuration_path_join after ≡ ok (some n) =
          ap (λ p. get_file p after) (sym (kubeadm_file-join k t i)) ∙ q in
        let other : str_eq file.path kubeadm_configuration_path_init ≡ false =
          ap (λ p. str_eq p kubeadm_configuration_path_init) (kubeadm_file-join k t i)
          ∙ paths_differ in
        let none_there : get_file kubeadm_configuration_path_init after ≡ ok none =
          get_file-entry_at file.path kubeadm_configuration_path_init after n q
          ∙ ap ok (
              entry_at-set_or_update_file lib file document plain prints well h
                kubeadm_configuration_path_init other
              ∙ absent i) in
        get_kubeadm_config_join codec after n _ none_there here p ∙ ground arith

-- A configuration that was set is read back.
get-set_if_ok :
    (codec : KubeCodec) (lib : YamlLib) (document : Node) (old k : KubeadmConfig)
    → WellFormed document
    → ReadsStream codec
    → ((t : Text) → PrintsFile lib (kubeadm_file k (45 ∷ t)))
    → get_kubeadm_config codec document ≡ ok old
    → k.is_init ≡ old.is_init
    → objects_of k ≢ []
    → (set_kubeadm_config codec lib k document).0 ≡ ok tt
    → get_kubeadm_config codec (set_kubeadm_config codec lib k document).1 ≡ ok k
unfolding set_kubeadm_config
get-set_if_ok codec lib document old k well law prints read keeps some_object h =
    let (objects, e, h1, same) =
      bind-ok
        (of_result (
          if codec.supports_yaml
          then encode_objects codec k
          else err (failure (text "unsupported media type: %s"))))
        (λ objects. set_or_update_file lib (kubeadm_file k (join_texts objects))) document tt h in
    let encoded : encode_objects codec k ≡ ok objects = ground arith in
    let (t, q) = encode_objects-nonempty codec k objects encoded some_object in
    ap (get_kubeadm_config codec) same
    ∙ subst
        (λ (c : Text).
          (set_or_update_file lib (kubeadm_file k c) document).0 ≡ ok tt
          → get_kubeadm_config codec (set_or_update_file lib (kubeadm_file k c) document).1 ≡ ok k)
        (sym q)
        (get-set_file codec lib document k _ well (prints _)
          (rw q at (parse-encode_objects codec k objects law encoded))
          (λ i. get-not_init codec document old read (sym keeps ∙ i)))
        h1

-- For user data whose entries have one path and one content, a decoder that reads back what the
-- encoder writes, and a printer whose text of a file that starts with a dash is read back: if
-- `GetKubeadmConfig` returns a configuration, the file at the path of the new one has a content, and
-- the new configuration has the same `isInit`, at least one object, and is encoded without an error,
-- then `SetKubeadmConfig` of it succeeds, and `GetKubeadmConfig` of the document that it leaves
-- returns it.
pub get-set_kubeadm_config :
    (codec : KubeCodec) (lib : YamlLib) (document : Node) (old k : KubeadmConfig) (t : Text)
    (ts : List Text)
    → WellFormed document
    → ReadsStream codec
    → ((t : Text) → PrintsFile lib (kubeadm_file k (45 ∷ t)))
    → get_kubeadm_config codec document ≡ ok old
    → stored (kubeadm_file k []).path document ≡ some t
    → k.is_init ≡ old.is_init
    → objects_of k ≢ []
    → codec.supports_yaml ≡ true
    → encode_objects codec k ≡ ok ts
    → ((set_kubeadm_config codec lib k document).0 ≡ ok tt)
      × (get_kubeadm_config codec (set_kubeadm_config codec lib k document).1 ≡ ok k)
unfolding set_kubeadm_config kubeadm_file
get-set_kubeadm_config codec lib document old k t ts well law prints read has keeps some_object yaml
      encoded =
    (done, get-set_if_ok codec lib document old k well law prints read keeps some_object done)
  where
    done : (set_kubeadm_config codec lib k document).0 ≡ ok tt
    done =
        let (n, q, e, v) = get_file_of_stored (kubeadm_file k []).path document t well has in
        rw yaml (
          rw encoded (
            set_or_update_file_succeeds lib (kubeadm_file k (join_texts ts)) document n t q
              e.one_content v refl refl))
