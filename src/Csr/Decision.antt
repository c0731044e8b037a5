-- ===== src/Csr/Decision.antt =====
-- When the controller approves a certificate signing request.
use cluster_api_provider_hcl.Base.{Text, ◌++◌, some, List, [], ◌∷◌, ◌≡◌}
use cluster_api_provider_hcl.Exec.{success}
use cluster_api_provider_hcl.Api.{HcloudMachine}
use cluster_api_provider_hcl.Csr.{
  nodes_prefix, CertificateRequest, SigningRequest, Request, GuestEnv, get_csr, get_hcloud_machine,
}
use cluster_api_provider_hcl.Csr.Validation.{Valid}

-- A block of the request that parses to a valid request for the machine.
abbrev pub Parsed : GuestEnv → SigningRequest → HcloudMachine → Type 0
Parsed env csr machine =
    (block : Text) × (request : CertificateRequest) × (env.decode csr.request ≡ some block)
    × (env.parse_certificate_request block ≡ success request)
    × Valid env.net request machine

-- The request was open and came from a node, and it is valid for the machine that the management
-- cluster has under that node's name.
abbrev pub Approved : GuestEnv → Text → List Request → Type 0
Approved env name t =
    (csr : SigningRequest) × (machine : HcloudMachine) × (node : Text) × (env.get_csr t name
      ≡ success csr)
    × (csr.conditions ≡ [])
    × (csr.username ≡ nodes_prefix ++ node)
    × (env.get_hcloud_machine (get_csr name ∷ t) node ≡ success machine)
    × Parsed env csr machine
