-- ===== src/Csr.antt =====
-- The validation of a kubelet's certificate signing request (pkg/csr/csr.go), and the controller that
-- decides on the requests of a guest cluster (controllers/cluster_csr_controller.go).
pub mod Validation
pub mod Decision
mod Tests
use cluster_api_provider_hcl.Base.{
  Text, text, ℕ, Bool, true, false, Option, none, some, List, [], ◌∷◌, ◌++◌, length, mem_text,
  str_eq, has_prefix, not, ◌&&◌, ltb, if◌then◌else◌,
}
use cluster_api_provider_hcl.Exec.{
  Error, failure, Result, ok, err, panic, Reply, success, refusal, Exec, pure, fail, deref, ◌>>=◌,
  ◌>>◌,
}
use cluster_api_provider_hcl.Api.{
  HcloudMachine, NodeAddress, NodeAddressType, host_name, internal_ip, external_ip, internal_dns,
  external_dns,
}
use cluster_api_provider_hcl.Hcloud.{Ip, NetLib}
use cluster_api_provider_hcl.LoadBalancer.{format_ip}
use cluster_api_provider_hcl.Server.Create.{is_not_found}

-- `pkix.Name`: an attribute is its object identifier and its value; the last field holds what the
-- other fields say.
pub record Name : Type 0 where
  pub common_name : Text
  pub organization : List Text
  pub names : List (List ℕ × Text)
  pub others : List Text

-- `x509.CertificateRequest`, with its subject, its alternative names and what `CheckSignature` says.
pub record CertificateRequest : Type 0 where
  pub signature_error : Option Error
  pub subject : Name
  pub email_addresses : List Text
  pub dns_names : List Text
  pub ip_addresses : List Ip
  pub uris : List Text

abbrev pub nodes_prefix : Text
nodes_prefix = text "system:node:"

abbrev pub nodes_group : Text
nodes_group = text "system:nodes"

-- `subjectExpected`, of the machine's name
unfoldable pub subject_expected : Text → Name
subject_expected machine_name = record {
  common_name = nodes_prefix ++ machine_name;
  organization = nodes_group ∷ [];
  names =
      (2 ∷ 5 ∷ 4 ∷ 10 ∷ [], nodes_group) ∷ (2 ∷ 5 ∷ 4 ∷ 3 ∷ [], nodes_prefix ++ machine_name) ∷ [];
  others = [];
}

unfoldable pub texts_eq : List Text → List Text → Bool
texts_eq [] [] = true
texts_eq [] (b ∷ t) = false
texts_eq (a ∷ s) [] = false
texts_eq (a ∷ s) (b ∷ t) = str_eq a b && texts_eq s t

unfoldable pub attributes_eq : List (List ℕ × Text) → List (List ℕ × Text) → Bool
attributes_eq [] [] = true
attributes_eq [] (b ∷ t) = false
attributes_eq (a ∷ s) [] = false
attributes_eq ((k, v) ∷ s) ((j, w) ∷ t) = str_eq k j && (str_eq v w && attributes_eq s t)

-- `reflect.DeepEqual` on names
unfoldable pub name_eq : Name → Name → Bool
unfolding texts_eq attributes_eq
name_eq a b =
    str_eq a.common_name b.common_name
    && (texts_eq a.organization b.organization
        && (attributes_eq a.names b.names && texts_eq a.others b.others))

unfoldable pub is_ip : NodeAddressType → Bool
is_ip internal_ip = true
is_ip external_ip = true
is_ip host_name = false
is_ip internal_dns = false
is_ip external_dns = false

-- `allowedIPAddresses`
unfoldable pub allowed_ip_addresses : List NodeAddress → List Text
unfolding is_ip
allowed_ip_addresses [] = []
allowed_ip_addresses (a ∷ addresses) =
    let rest = allowed_ip_addresses addresses in if is_ip a.type then a.address ∷ rest else rest

-- The errors of a loop that looks each name up in a set.
unfoldable pub forbidden : Text → List Text → List Text → List Error
forbidden message allowed [] = []
forbidden message allowed (name ∷ names) =
    let rest = forbidden message allowed names in
    if mem_text name allowed then rest else failure message ∷ rest

unfoldable pub format_ips : NetLib → List Ip → List Text
unfolding format_ip
format_ips net [] = []
format_ips net (ip ∷ ips) = format_ip net ip ∷ format_ips net ips

-- `ValidateKubeletCSR`: its errors; none is nil, as `NewAggregate` of no errors is.
unfoldable pub validate_kubelet_csr : NetLib → CertificateRequest → HcloudMachine → List Error
unfolding name_eq subject_expected allowed_ip_addresses forbidden format_ips
validate_kubelet_csr net csr machine = elim (csr.signature_error) [
  | some e ↦ e ∷ []
  | none ↦
      (if not (name_eq (subject_expected machine.name) csr.subject)
        then failure (text "unexpected subject actual=%+#v, expected=%+#v") ∷ []
        else [])
      ++ ((if ltb 0 (length csr.email_addresses)
            then failure (text "email addresses are not allow on the request: %v") ∷ []
            else [])
          ++ (forbidden (text "the DNS name '%s' is not allowed") (machine.name ∷ []) csr.dns_names
              ++ forbidden (text "the IPAddress '%s' is not allowed")
                  (allowed_ip_addresses machine.status.addresses)
                  (format_ips net csr.ip_addresses)))
]

-- `certificatesv1.CertificateSigningRequest`; a condition is whether it approves the request.
pub record SigningRequest : Type 0 where
  pub conditions : List Bool
  pub username : Text
  pub request : Text

-- What the controller asks of the guest cluster and of the management cluster.
pub data Request : Type 0 where
  get_csr get_hcloud_machine : Text → Request
  parsing_error : Request
  update_approval : Text → Bool → Request

-- The answers. Decoding says none where `pem.Decode` finds no block.
pub record GuestEnv : Type 0 where
  pub net : NetLib
  pub get_csr : List Request → Text → Reply SigningRequest
  pub get_hcloud_machine : List Request → Text → Reply HcloudMachine
  pub decode : Text → Option Text
  pub parse_certificate_request : Text → Reply CertificateRequest

abbrev ask : {A : Type 0} → Request → (List Request → Reply A) → Exec (List Request) (Reply A)
ask q reply t = (ok (reply t), q ∷ t)

-- `strings.TrimPrefix` on a name that has the prefix.
unfoldable pub trim_prefix : Text → Text → Text
trim_prefix (a ∷ s) (c ∷ p) = trim_prefix s p
trim_prefix s [] = s
trim_prefix [] (c ∷ p) = []

unfoldable pub is_approved : List Error → Bool
is_approved [] = true
is_approved (e ∷ es) = false

-- `Reconcile` once the machine is there; the error of `UpdateApproval` is dropped
unfoldable pub decide :
    GuestEnv → Text → SigningRequest → HcloudMachine → Exec (List Request) (Unit {0})
unfolding validate_kubelet_csr is_approved
decide env name csr machine t = elim (env.decode csr.request) [
  | none ↦ (panic, t)
  | some block ↦ elim (env.parse_certificate_request block) [
    | refusal e ↦ (err e, parsing_error ∷ t)
    | success request ↦ (
      ok tt,
      update_approval name (is_approved (validate_kubelet_csr env.net request machine)) ∷ t,
    )
  ]
]

-- Whether the controller leaves a request alone.
unfoldable pub is_skipped : SigningRequest → Bool
is_skipped csr =
    if ltb 0 (length csr.conditions) then true else not (has_prefix csr.username nodes_prefix)

-- `GuestCSRReconciler.Reconcile`
unfoldable pub reconcile : GuestEnv → Text → Exec (List Request) (Unit {0})
unfolding is_skipped decide trim_prefix is_not_found
reconcile env name t = elim (env.get_csr t name) [
  | refusal e ↦ (if is_not_found e then ok tt else err e, get_csr name ∷ t)
  | success csr ↦
      if is_skipped csr
      then (ok tt, get_csr name ∷ t)
      else let machine_name = trim_prefix csr.username nodes_prefix in
        elim (env.get_hcloud_machine (get_csr name ∷ t) machine_name) [
          | refusal e ↦ (err e, get_hcloud_machine machine_name ∷ get_csr name ∷ t)
          | success machine ↦
              decide env name csr machine (get_hcloud_machine machine_name ∷ get_csr name ∷ t)
        ]
]
