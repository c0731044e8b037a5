-- ===== src/Server/Configure.antt =====
-- The settings of a control plane's API server.
use cluster_api_provider_hcl.Base.{
  Text, text, true, none, some, List, [], ◌∷◌, ◌++◌, Dict, lookup, lookup-put, mem_text, ◌||◌,
  if◌then◌else◌, str_eq, str_eq_iff, str_eq_refl, ◌≡◌, inl, inr, refl, ap, ◌∙◌, arith, Bool-cases,
  Option-cases,
}
use cluster_api_provider_hcl.Server.Kubeadm.{
  ClusterConfiguration, default_arg, add_names, api_server_args, configure, cloud_provider_key,
  service_account_issuer_key, service_account_signing_key_file_key,
}

default_arg_present : (k v w : Text) (m : Dict Text) → lookup k m ≡ some w → default_arg k v m ≡ m
unfolding default_arg
default_arg_present k v w m h = rw (default_arg, h)

-- What a default leaves under any key.
pub lookup-default_arg :
    (k v j : Text) (m : Dict Text)
    → lookup j (default_arg k v m)
      ≡ elim (lookup j m) [ none ↦ if str_eq k j then some v else none | some w ↦ some w ]
unfolding default_arg
lookup-default_arg k v j m = elim (Option-cases (lookup k m)) [
  | inl absent ↦ ground (arith, lookup-put k j v m, str_eq_iff k j)
  | inr (w, present) ↦ ground (arith, str_eq_iff k j)
]

-- A key that is set stays set to the same value.
default_arg_keeps :
    (k v j w : Text) (m : Dict Text) → lookup j m ≡ some w → lookup j (default_arg k v m) ≡ some w
default_arg_keeps k v j w m h = lookup-default_arg k v j m ∙ rw h

default_arg_sets :
    (k v : Text) (m : Dict Text) → (w : Text) × (lookup k (default_arg k v m) ≡ some w)
default_arg_sets k v m = elim (Option-cases (lookup k m)) [
  | inl absent ↦ (v, lookup-default_arg k v k m ∙ rw absent (rw (str_eq_refl k)))
  | inr (w, present) ↦ (w, default_arg_keeps k v k w m present)
]

mem_text-append :
    (e : Text) (s t : List Text) → mem_text e (s ++ t) ≡ (mem_text e s || mem_text e t)
mem_text-append e [] t = refl
mem_text-append e (a ∷ s) t = ground (arith, mem_text-append e s t)

add_names_keeps :
    (e : Text) (names sans : List Text)
    → mem_text e sans ≡ true
    → mem_text e (add_names names sans) ≡ true
unfolding add_names
add_names_keeps e [] sans h = h
add_names_keeps e (name ∷ names) sans h =
    add_names_keeps e names (if mem_text name sans then sans else sans ++ (name ∷ []))
      (ground (arith, mem_text-append e sans (name ∷ [])))

-- Every name that the certificate needs is there, whatever was there before.
pub add_names_sets :
    (e : Text) (names sans : List Text)
    → mem_text e names ≡ true
    → mem_text e (add_names names sans) ≡ true
unfolding add_names
add_names_sets e [] sans h = cc
add_names_sets e (name ∷ names) sans h = elim (Bool-cases (str_eq name e)) [
  | inl same ↦
      add_names_keeps e names (if mem_text name sans then sans else sans ++ (name ∷ []))
        (ground (arith, mem_text-append e sans (name ∷ []), str_eq_iff name e, str_eq_refl e))
  | inr other ↦
      add_names_sets e names (if mem_text name sans then sans else sans ++ (name ∷ []))
        (ground arith)
]

add_names_present :
    (names sans : List Text)
    → ((e : Text) → mem_text e names ≡ true → mem_text e sans ≡ true)
    → add_names names sans ≡ sans
unfolding add_names
add_names_present [] sans h = refl
add_names_present (name ∷ names) sans h =
    rw (h name (rw (str_eq_refl name))) (add_names_present names sans (λ e m. h e (ground arith)))

-- Three defaults, set a second time.
defaults_again :
    (k l j u v w : Text) (m : Dict Text)
    → let n = default_arg k u (default_arg l v (default_arg j w m)) in
      default_arg k u (default_arg l v (default_arg j w n)) ≡ n
defaults_again k l j u v w m =
    let m1 = default_arg j w m in
    let m2 = default_arg l v m1 in
    let n = default_arg k u m2 in
    let (a, set_a) = default_arg_sets j w m in
    let (b, set_b) = default_arg_sets l v m1 in
    let (c, set_c) = default_arg_sets k u m2 in
    let has_a = default_arg_keeps k u j a m2 (default_arg_keeps l v j a m1 set_a) in
    ap (λ x. default_arg k u (default_arg l v x)) (default_arg_present j w a n has_a)
    ∙ (ap (default_arg k u) (default_arg_present l v b n (default_arg_keeps k u l b m2 set_b))
        ∙ default_arg_present k u c n set_c)

api_server_args_again :
    (issuer : Text) (m : Dict Text)
    → api_server_args issuer (api_server_args issuer m) ≡ api_server_args issuer m
unfolding api_server_args
api_server_args_again issuer m =
    defaults_again service_account_signing_key_file_key service_account_issuer_key
      cloud_provider_key (text "/etc/kubernetes/pki/sa.key") issuer (text "external") m

default_arg_again :
    (k v : Text) (m : Dict Text) → default_arg k v (default_arg k v m) ≡ default_arg k v m
default_arg_again k v m =
    let (w, h) = default_arg_sets k v m in default_arg_present k v w (default_arg k v m) h

add_names_again :
    (names sans : List Text) → add_names names (add_names names sans) ≡ add_names names sans
add_names_again names sans =
    add_names_present names (add_names names sans) (λ e m. add_names_sets e names sans m)

configuration_eq :
    (a b : ClusterConfiguration)
    → a.api_server_extra_args ≡ b.api_server_extra_args
    → a.controller_manager_extra_args ≡ b.controller_manager_extra_args
    → a.cert_sans ≡ b.cert_sans
    → a ≡ b
configuration_eq a b p q r = cc

-- Configuring a cluster twice, for the same endpoint, is the same as configuring it once.
pub configure_again :
    (issuer host : Text) (c : ClusterConfiguration)
    → configure issuer host (configure issuer host c) ≡ configure issuer host c
configure_again issuer host c =
    configuration_eq _ _ (unfold configure in api_server_args_again issuer c.api_server_extra_args)
      (unfold configure in
        default_arg_again cloud_provider_key (text "external") c.controller_manager_extra_args)
      (unfold configure in
        add_names_again (text "127.0.0.1" ∷ text "localhost" ∷ host ∷ []) c.cert_sans)

-- Configuring a cluster keeps each argument of the API server that is set, and puts the endpoint's
-- host among the names of the serving certificate.
pub configure_respects :
    (issuer host key value : Text) (c : ClusterConfiguration)
    → lookup key c.api_server_extra_args ≡ some value
    → (lookup key (configure issuer host c).api_server_extra_args ≡ some value)
      × (mem_text host (configure issuer host c).cert_sans ≡ true)
configure_respects issuer host key value c h = (
  unfold configure api_server_args in
      default_arg_keeps service_account_signing_key_file_key (text "/etc/kubernetes/pki/sa.key") key
        value _
        (default_arg_keeps service_account_issuer_key issuer key value _ (
          default_arg_keeps cloud_provider_key (text "external") key value c.api_server_extra_args
            h)),
  unfold configure in
      add_names_sets host (text "127.0.0.1" ∷ text "localhost" ∷ host ∷ []) c.cert_sans
        (rw (str_eq_refl host) (ground arith)),
)
