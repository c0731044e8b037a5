-- ===== src/UserData/Encoding.antt =====
-- The objects of a kubeadm configuration as one text, and back.
use cluster_api_provider_hcl.Base.{
  Text, text, false, Option, none, some, List, [], ◌∷◌, ◌++◌, map, ◌≡◌, ◌≢◌, refl, sym, ◌∙◌,
}
use cluster_api_provider_hcl.Exec.{then_result, wrapped, Result, ok, err, panic, success}
use cluster_api_provider_hcl.Exec.Ensures.{then_result-ok}
use cluster_api_provider_hcl.Server.Kubeadm.{
  ClusterConfiguration, InitConfiguration, JoinConfiguration, KubeadmConfig,
}
use cluster_api_provider_hcl.UserData.Config.{
  KubeObject, cluster, init, join, unknown, KubeCodec, empty_config, parse_objects,
  parse_kubeadm_config, document_separator, encode_object, join_texts, encode_objects,
}
use mathlib.Core.List.{append-nil, append_assoc, map-append}

module _ (codec : KubeCodec) where
  -- One text for each object.
  abbrev pub Encodes : KubeObject → Text → Type 0
  Encodes (cluster o) b = codec.encode_cluster o ≡ ok b
  Encodes (init o) b = codec.encode_init o ≡ ok b
  Encodes (join o) b = codec.encode_join o ≡ ok b
  Encodes unknown b = ⊥

  abbrev pub AllEncode : List KubeObject → List Text → Type 0
  AllEncode [] [] = Unit
  AllEncode [] (b ∷ bs) = ⊥
  AllEncode (o ∷ os) [] = ⊥
  AllEncode (o ∷ os) (b ∷ bs) = Encodes o b × AllEncode os bs

  -- The decoder splits a text at the separators and reads back what the encoder wrote.
  pub record ReadsStream : Type 0 where
    pub reads :
        (os : List KubeObject) (bs : List Text)
        → AllEncode os bs
        → codec.decode_stream (join_texts (map (λ b. document_separator ++ b) bs)) ≡ map success os

abbrev one : {A : Type 0} → (A → KubeObject) → Option A → List KubeObject
one f none = []
one f (some o) = f o ∷ []

-- The objects that the configuration holds, in the order in which they are written.
abbrev pub objects_of : KubeadmConfig → List KubeObject
objects_of k =
    one cluster k.cluster_configuration
    ++ (one init k.init_configuration ++ one join k.join_configuration)

parse_objects_of :
    (a : Option ClusterConfiguration) (b : Option InitConfiguration) (c : Option JoinConfiguration)
    → parse_objects (map success (one cluster a ++ (one init b ++ one join c))) empty_config
      ≡ ok (record {
        cluster_configuration = a;
        init_configuration = b;
        join_configuration = c;
        is_init = false;
      })
unfolding parse_objects
parse_objects_of none none none = refl
parse_objects_of none none (some c) = refl
parse_objects_of none (some b) none = refl
parse_objects_of none (some b) (some c) = refl
parse_objects_of (some a) none none = refl
parse_objects_of (some a) none (some c) = refl
parse_objects_of (some a) (some b) none = refl
parse_objects_of (some a) (some b) (some c) = refl

abbrev separated : List Text → List Text
separated bs = map (λ b. document_separator ++ b) bs

abbrev Encoded : {A : Type 0} → (A → Result Text) → Option A → List Text → Type 0
Encoded encode none bs = bs ≡ []
Encoded encode (some a) bs = (b : Text) × (bs ≡ b ∷ []) × (encode a ≡ ok b)

-- What a successful `encode_object` appended.
encode_object-ok :
    {A : Type 0} (encode : A → Result Text) (o : Option A) (objects ts : List Text)
    → encode_object encode o objects ≡ ok ts
    → (bs : List Text) × (ts ≡ objects ++ separated bs) × Encoded encode o bs
unfolding encode_object
encode_object-ok encode none objects ts h =
    let same : objects ≡ ts = cc in ([], sym same ∙ sym (append-nil objects), refl)
encode_object-ok encode (some a) objects ts h = go (encode a) refl
  where
    go :
        (r : Result Text)
        → encode a ≡ r
        → (bs : List Text) × (ts ≡ objects ++ separated bs) × Encoded encode (some a) bs
    go (ok b) q =
        let same : ok (objects ++ ((document_separator ++ b) ∷ [])) ≡ ok ts =
          rw (q, encode_object) at h in
        (
          b ∷ [],
          (let back : objects ++ ((document_separator ++ b) ∷ []) ≡ ts = cc in sym back),
          (b, refl, q),
        )
    go (err e) q =
        let refused : err (wrapped (text "error serializing %T: %w") e) ≡ ok ts =
          rw (q, encode_object) at h in
        absurd (cc)
    go panic q = let refused : panic ≡ ok ts = rw (q, encode_object) at h in absurd (cc)

AllEncode-append :
    (codec : KubeCodec) (os more : List KubeObject) (bs more_bs : List Text)
    → AllEncode codec os bs
    → AllEncode codec more more_bs
    → AllEncode codec (os ++ more) (bs ++ more_bs)
AllEncode-append codec [] more [] more_bs h k = k
AllEncode-append codec [] more (b ∷ bs) more_bs h k = absurd h
AllEncode-append codec (o ∷ os) more [] more_bs h k = absurd h
AllEncode-append codec (o ∷ os) more (b ∷ bs) more_bs h k =
    (h.0, AllEncode-append codec os more bs more_bs h.1 k)

one-AllEncode :
    {A : Type 0} (codec : KubeCodec) (f : A → KubeObject) (encode : A → Result Text) (o : Option A)
    (bs : List Text)
    → ((a : A) (b : Text) → encode a ≡ ok b → Encodes codec (f a) b)
    → Encoded encode o bs
    → AllEncode codec (one f o) bs
one-AllEncode codec f encode none bs k h = rw h tt
one-AllEncode codec f encode (some a) bs k (b, q, e) = rw q (k a b e, tt)

-- What `SetKubeadmConfig` writes for the objects of the configuration.
encode_objects-AllEncode :
    (codec : KubeCodec) (k : KubeadmConfig) (ts : List Text)
    → encode_objects codec k ≡ ok ts
    → (bs : List Text) × (ts ≡ separated bs) × AllEncode codec (objects_of k) bs
unfolding encode_objects
encode_objects-AllEncode codec k ts h =
    let (objects, e1, h1) =
      then_result-ok (encode_object codec.encode_cluster k.cluster_configuration [])
        (λ objects.
          then_result (encode_object codec.encode_init k.init_configuration objects)
            λ more. encode_object codec.encode_join k.join_configuration more)
        ts h in
    let (more, e2, e3) =
      then_result-ok (encode_object codec.encode_init k.init_configuration objects)
        (λ more. encode_object codec.encode_join k.join_configuration more) ts h1 in
    let (b1, q1, a1) =
      encode_object-ok codec.encode_cluster k.cluster_configuration [] objects e1 in
    let (b2, q2, a2) = encode_object-ok codec.encode_init k.init_configuration objects more e2 in
    let (b3, q3, a3) = encode_object-ok codec.encode_join k.join_configuration more ts e3 in
    (
      b1 ++ (b2 ++ b3),
      q3 ∙ rw (q2, q1) (simp (map-append, append_assoc)),
      AllEncode-append codec _ _ b1 (b2 ++ b3)
          (one-AllEncode codec cluster codec.encode_cluster k.cluster_configuration b1 (λ a b e. e)
            a1)
          (AllEncode-append codec _ _ b2 b3
            (one-AllEncode codec init codec.encode_init k.init_configuration b2 (λ a b e. e) a2)
            (one-AllEncode codec join codec.encode_join k.join_configuration b3 (λ a b e. e) a3)),
    )

-- What was written for the objects of a configuration is parsed as that configuration.
pub parse-encode_objects :
    (codec : KubeCodec) (k : KubeadmConfig) (ts : List Text)
    → ReadsStream codec
    → encode_objects codec k ≡ ok ts
    → parse_kubeadm_config codec (join_texts ts) ≡ ok (record k { is_init = false })
unfolding parse_kubeadm_config
parse-encode_objects codec k ts law h =
    let (bs, q, a) = encode_objects-AllEncode codec k ts h in
    rw (q, law.reads (objects_of k) bs a)
      (parse_objects_of k.cluster_configuration k.init_configuration k.join_configuration)

-- A configuration with an object is not written as an empty text.
pub encode_objects-nonempty :
    (codec : KubeCodec) (k : KubeadmConfig) (ts : List Text)
    → encode_objects codec k ≡ ok ts
    → objects_of k ≢ []
    → (t : Text) × (join_texts ts ≡ 45 ∷ 45 ∷ 45 ∷ 10 ∷ t)
unfolding join_texts
encode_objects-nonempty codec k ts h n =
    let (bs, q, a) = encode_objects-AllEncode codec k ts h in go (objects_of k) bs n a q
  where
    go :
        (os : List KubeObject) (bs : List Text)
        → os ≢ []
        → AllEncode codec os bs
        → ts ≡ separated bs
        → (t : Text) × (join_texts ts ≡ 45 ∷ 45 ∷ 45 ∷ 10 ∷ t)
    go [] bs m a q = absurd (m refl)
    go (o ∷ os) [] m a q = absurd a
    go (o ∷ os) (b ∷ bs) m a q = (b ++ join_texts (separated bs), rw q)
