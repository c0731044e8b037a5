-- ===== src/Csr/Tests.antt =====
-- A request of the kubelet of the machine `node`, and one for an address that is not the machine's.
use cluster_api_provider_hcl.Base.{Text, text, List, none, some, [], ◌∷◌, ◌≡◌, refl, str_eq}
use cluster_api_provider_hcl.Exec.{failure, success}
use cluster_api_provider_hcl.Api.{HcloudMachine}
use cluster_api_provider_hcl.Csr.{
  CertificateRequest, GuestEnv, get_csr, get_hcloud_machine, subject_expected, validate_kubelet_csr,
}
use cluster_api_provider_hcl.Csr.Validation.{Valid, validate_kubelet_csr_sound}
use cluster_api_provider_hcl.Fixtures.{net_lib, machine_scope, status_of_node}

abbrev node : HcloudMachine
node = record (machine_scope.hcloud_machine) { status = status_of_node }

abbrev kubelet_request : CertificateRequest
kubelet_request = record {
  signature_error = none;
  subject = subject_expected (text "node");
  email_addresses = [];
  dns_names = text "node" ∷ [];
  ip_addresses = (10 ∷ []) ∷ [];
  uris = [];
}

test_valid : validate_kubelet_csr net_lib kubelet_request node ≡ []
unfolding validate_kubelet_csr subject_expected text str_eq
test_valid = refl

-- The nil address prints as a text that no address of the machine has.
test_foreign :
    validate_kubelet_csr net_lib (record kubelet_request { ip_addresses = [] ∷ [] }) node
    ≡ failure (text "the IPAddress '%s' is not allowed") ∷ []
unfolding validate_kubelet_csr subject_expected text str_eq
test_foreign = refl

validate_kubelet_csr_sound_example :
    Valid net_lib kubelet_request node
    × ((uris : List Text)
        → validate_kubelet_csr net_lib (record kubelet_request { uris = uris }) node ≡ [])
validate_kubelet_csr_sound_example =
    validate_kubelet_csr_sound net_lib kubelet_request node test_valid

abbrev guest : GuestEnv
guest = record {
  net = net_lib;
  get_csr = λ t name.
      success
        (record { conditions = []; username = text "system:node:node"; request = text "pem" });
  get_hcloud_machine = λ t name. success node;
  decode = λ pem. some pem;
  parse_certificate_request = λ block. success kubelet_request;
}
