-- ===== src/Scope/FailureDomain.antt =====
-- `MachineScope.GetFailureDomain` (pkg/scope/machine.go), with `crc32.ChecksumIEEE`.
pub mod Choice
mod Tests
use Prim.Native.Nat.{bit_xor}
use cluster_api_provider_hcl.Base.{
  Text, ℕ, zero, suc, ◌/◌, ◌%◌, Bool, Option, none, some, List, [], ◌∷◌, Dict, if◌then◌else◌, ◌==◌,
  not, ◌&&◌, length, get_elem?, sort_strings,
}
use cluster_api_provider_hcl.Exec.{failure_domain_not_found, Result, ok, err, panic}

-- Eight shift-and-xor rounds of the reflected IEEE polynomial.
crc_rounds : ℕ → ℕ → ℕ
crc_rounds zero c = c
crc_rounds (suc n) c = crc_rounds n (if c % 2 == 1 then bit_xor (c / 2) 0xedb88320 else c / 2)

crc_bytes : Text → ℕ → ℕ
unfolding crc_rounds
crc_bytes [] c = c
crc_bytes (b ∷ bs) c = crc_bytes bs (crc_rounds 8 (bit_xor c b))

-- `crc32.ChecksumIEEE`
unfoldable pub checksum_ieee : Text → ℕ
unfolding crc_bytes
checksum_ieee bs = bit_xor (crc_bytes bs 0xffffffff) 0xffffffff

-- The loop over `Cluster.Status.FailureDomains`, in the order in which Go ranges over the map.
unfoldable pub failure_domain_names : Bool → Dict Bool → List Text
failure_domain_names is_control_plane [] = []
failure_domain_names is_control_plane ((fd_name, control_plane) ∷ fds) =
    let rest = failure_domain_names is_control_plane fds in
    if is_control_plane && not control_plane then rest else fd_name ∷ rest

-- `int(crc32) % len`, on a 64-bit `int`
pick : Text → List Text → Result Text
unfolding checksum_ieee
pick machine_name names =
    elim (get_elem? (sort_strings names) (checksum_ieee machine_name % length names)) [
      | none ↦ panic
      | some name ↦ ok name
    ]

choose : Text → List Text → Result Text
unfolding pick
choose machine_name [] = err failure_domain_not_found
choose machine_name (name ∷ []) = ok name
choose machine_name (a ∷ b ∷ names) = pick machine_name (a ∷ b ∷ names)

-- `GetFailureDomain`, of the machine's own domain, its role, the name of the HcloudMachine and the
-- domains of the cluster
unfoldable pub get_failure_domain : Option Text → Bool → Text → Dict Bool → Result Text
unfolding failure_domain_names choose
get_failure_domain (some failure_domain) is_control_plane machine_name fds = ok failure_domain
get_failure_domain none is_control_plane machine_name fds =
    choose machine_name (failure_domain_names is_control_plane fds)
