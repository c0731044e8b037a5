-- ===== src/Csr/Validation.antt =====
-- What a certificate signing request says when the validation finds no error.
use mathlib.Core.List.{Memᴰ}
use cluster_api_provider_hcl.Base.{
  Text, text, ℕ, ltb, Bool, true, false, none, List, [], ◌∷◌, ◌++◌, length, mem_text, str_eq,
  str_eq_iff, All, not, ◌&&◌, if◌then◌else◌, ◌≡◌, inl, inr, refl, arith, Bool-cases, Option-cases,
}
use cluster_api_provider_hcl.Exec.{Error, failure}
use cluster_api_provider_hcl.Api.{HcloudMachine, NodeAddress}
use cluster_api_provider_hcl.Hcloud.{Ip, NetLib}
use cluster_api_provider_hcl.LoadBalancer.{format_ip}
use cluster_api_provider_hcl.Csr.{
  Name, CertificateRequest, subject_expected, texts_eq, attributes_eq, name_eq, is_ip,
  allowed_ip_addresses, forbidden, format_ips, validate_kubelet_csr,
}

texts_eq_sound : (s t : List Text) → texts_eq s t ≡ true → s ≡ t
unfolding texts_eq
texts_eq_sound [] [] h = refl
texts_eq_sound [] (b ∷ t) h = cc
texts_eq_sound (a ∷ s) [] h = cc
texts_eq_sound (a ∷ s) (b ∷ t) h = ground (arith, str_eq_iff a b, texts_eq_sound s t)

attributes_eq_sound : (s t : List (List ℕ × Text)) → attributes_eq s t ≡ true → s ≡ t
unfolding attributes_eq
attributes_eq_sound [] [] h = refl
attributes_eq_sound [] (b ∷ t) h = cc
attributes_eq_sound (a ∷ s) [] h = cc
attributes_eq_sound ((k, v) ∷ s) ((j, w) ∷ t) h =
    ground (arith, str_eq_iff k j, str_eq_iff v w, attributes_eq_sound s t)

and_true : (a b : Bool) → (a && b) ≡ true → (a ≡ true) × (b ≡ true)
and_true true b h = (refl, h)
and_true false b h = cc

name_of_parts :
    (a b : Name)
    → a.common_name ≡ b.common_name
    → a.organization ≡ b.organization
    → a.names ≡ b.names
    → a.others ≡ b.others
    → a ≡ b
name_of_parts a b p q r s = cc

name_eq_sound : (a b : Name) → name_eq a b ≡ true → a ≡ b
unfolding name_eq
name_eq_sound a b h =
    let (p, h1) = and_true _ _ h in
    let (q, h2) = and_true _ _ h1 in
    let (r, s) = and_true _ _ h2 in
    name_of_parts a b ((str_eq_iff a.common_name b.common_name).0 p)
      (texts_eq_sound a.organization b.organization q) (attributes_eq_sound a.names b.names r)
      (texts_eq_sound a.others b.others s)

-- A loop without errors: each name was in the set.
forbidden_nil :
    (message : Text) (allowed names : List Text)
    → forbidden message allowed names ≡ []
    → All (λ n. mem_text n allowed ≡ true) names
unfolding forbidden
forbidden_nil message allowed [] h = tt
forbidden_nil message allowed (n ∷ names) h = elim (Bool-cases (mem_text n allowed)) [
  | inl known ↦ (known, forbidden_nil message allowed names (rw known at h))
  | inr unknown ↦ cc (rw unknown at h)
]

-- An address of the machine, internal or external, that prints as the text.
abbrev pub HasAddress : List NodeAddress → Text → Type 0
HasAddress addresses t =
    (a : NodeAddress) × Memᴰ a addresses × (is_ip a.type ≡ true) × (a.address ≡ t)

allowed_sound :
    (addresses : List NodeAddress) (t : Text)
    → mem_text t (allowed_ip_addresses addresses) ≡ true
    → HasAddress addresses t
unfolding allowed_ip_addresses
allowed_sound [] t h = cc
allowed_sound (a ∷ addresses) t h = elim (Bool-cases (is_ip a.type)) [
  | inr other ↦ later (allowed_sound addresses t (rw other at h))
  | inl ip ↦ elim (Bool-cases (str_eq a.address t)) [
    | inl same ↦ (a, Memᴰ.head refl, ip, (str_eq_iff a.address t).0 same)
    | inr different ↦ later (allowed_sound addresses t (rw different at (rw ip at h)))
  ]
]
  where
    later : HasAddress addresses t → HasAddress (a ∷ addresses) t
    later (b, m, i, e) = (b, Memᴰ.tail m, i, e)

abbrev IsAllowed : NetLib → List NodeAddress → Ip → Type 0
IsAllowed net addresses ip = HasAddress addresses (format_ip net ip)

ips-IsAllowed :
    (net : NetLib) (addresses : List NodeAddress) (ips : List Ip)
    → All (λ n. mem_text n (allowed_ip_addresses addresses) ≡ true) (format_ips net ips)
    → All (IsAllowed net addresses) ips
unfolding format_ips
ips-IsAllowed net addresses [] h = tt
ips-IsAllowed net addresses (ip ∷ ips) h =
    (allowed_sound addresses (format_ip net ip) h.0, ips-IsAllowed net addresses ips h.1)

names_equal :
    (n : Text) (names : List Text)
    → All (λ m. mem_text m (n ∷ []) ≡ true) names
    → All (λ m. m ≡ n) names
names_equal n [] h = tt
names_equal n (m ∷ names) h = (ground (arith, str_eq_iff n m), names_equal n names h.1)

-- A signed request whose subject, e-mail addresses, DNS names and IP addresses are the machine's.
abbrev pub Valid : NetLib → CertificateRequest → HcloudMachine → Type 0
Valid net csr machine =
    (csr.signature_error ≡ none)
    × (subject_expected machine.name ≡ csr.subject)
    × (csr.email_addresses ≡ [])
    × All (λ n. n ≡ machine.name) csr.dns_names
    × All (λ ip. HasAddress machine.status.addresses (format_ip net ip)) csr.ip_addresses

append_nil : (s t : List Error) → s ++ t ≡ [] → (s ≡ []) × (t ≡ [])
append_nil [] t h = (refl, h)
append_nil (e ∷ s) t h = cc

subject_checked : (b : Bool) (e : Error) → (if not b then e ∷ [] else []) ≡ [] → b ≡ true
subject_checked true e h = refl
subject_checked false e h = cc

emails_checked :
    (emails : List Text) (e : Error)
    → (if ltb 0 (length emails) then e ∷ [] else []) ≡ []
    → emails ≡ []
emails_checked [] e h = refl
emails_checked (a ∷ emails) e h = ground arith

-- A request without errors is valid.
pub validate_kubelet_csr-Valid :
    (net : NetLib) (csr : CertificateRequest) (machine : HcloudMachine)
    → validate_kubelet_csr net csr machine ≡ []
    → Valid net csr machine
validate_kubelet_csr-Valid net csr machine h = elim (Option-cases csr.signature_error) [
  | inr (e, signed) ↦ absurd (unfold validate_kubelet_csr in cc (rw signed at h))
  | inl signed ↦ checked signed (unfold validate_kubelet_csr in rw signed at h)
]
  where
    message_subject : Error
    message_subject = failure (text "unexpected subject actual=%+#v, expected=%+#v")

    message_email : Error
    message_email = failure (text "email addresses are not allow on the request: %v")

    checked :
        csr.signature_error ≡ none
        → (if not (name_eq (subject_expected machine.name) csr.subject)
              then message_subject ∷ []
              else [])
            ++ ((if ltb 0 (length csr.email_addresses) then message_email ∷ [] else [])
                ++ (forbidden
                      (text "the DNS name '%s' is not allowed")
                      (machine.name ∷ [])
                      csr.dns_names
                    ++ forbidden
                        (text "the IPAddress '%s' is not allowed")
                        (allowed_ip_addresses machine.status.addresses)
                        (format_ips net csr.ip_addresses)))
          ≡ []
        → Valid net csr machine
    checked signed h =
        let (s, h1) = append_nil _ _ h in
        let (m, h2) = append_nil _ _ h1 in
        let (d, i) = append_nil _ _ h2 in
        (
          signed,
          name_eq_sound (subject_expected machine.name) csr.subject
              (subject_checked _ message_subject s),
          emails_checked csr.email_addresses message_email m,
          names_equal machine.name csr.dns_names (forbidden_nil _ _ _ d),
          ips-IsAllowed net machine.status.addresses csr.ip_addresses (forbidden_nil _ _ _ i),
        )

-- When the validation finds no error, the request's signature is right, its subject is the node of
-- the machine, it names no e-mail address, no DNS name but the machine's, and no IP address that is
-- not an internal or external address of the machine. Its URIs are not looked at: with any others the
-- validation finds no error either.
pub validate_kubelet_csr_sound :
    (net : NetLib) (csr : CertificateRequest) (machine : HcloudMachine)
    → validate_kubelet_csr net csr machine ≡ []
    → Valid net csr machine
      × ((uris : List Text) → validate_kubelet_csr net (record csr { uris = uris }) machine ≡ [])
unfolding validate_kubelet_csr
validate_kubelet_csr_sound net csr machine h =
    (validate_kubelet_csr-Valid net csr machine h, λ uris. h)
