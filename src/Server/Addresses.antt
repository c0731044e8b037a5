-- ===== src/Server/Addresses.antt =====
-- The addresses that a machine takes over from its server.
use cluster_api_provider_hcl.Base.{
  text, ℕ, zero, suc, ◌+◌, ◌%◌, ◌^◌, ◌<◌, false, List, [], ◌∷◌, ◌++◌, All, length, str_eq,
  str_eq_iff, ◌≡◌, ◌≢◌, refl, ap, arith,
}
use cluster_api_provider_hcl.Exec.{Result, ok, err, panic}
use cluster_api_provider_hcl.Api.{NodeAddress, external_ip, HcloudMachineStatus}
use cluster_api_provider_hcl.Hcloud.{Ip, Server, NetLib}
use cluster_api_provider_hcl.LoadBalancer.{format_ip}
use cluster_api_provider_hcl.Server.{
  increment, ipv4_addresses, ipv6_addresses, internal_addresses, set_status_from_api,
}

-- Bytes stay bytes and their number stays, whichever of them is incremented.
pub increment_bytes :
    (i : ℕ) (ip next : Ip)
    → increment i ip ≡ ok next
    → All (λ b. b < 256) ip
    → All (λ b. b < 256) next × (length next ≡ length ip)
unfolding increment
increment_bytes i [] next h a = cc
increment_bytes zero (b ∷ ip) next h a =
    let e : next ≡ (b + 1) % 2 ^ 8 ∷ ip = cc in rw e ((omega arith, a.1), refl)
increment_bytes (suc i) (b ∷ ip) next h a =
    go (increment i ip) refl (λ tail q. increment_bytes i ip tail q a.1)
  where
    go :
        (r : Result Ip)
        → increment i ip ≡ r
        → ((tail : Ip)
            → increment i ip ≡ ok tail
            → All (λ c. c < 256) tail × (length tail ≡ length ip))
        → All (λ c. c < 256) next × (length next ≡ suc (length ip))
    go (err e) q ih = cc
    go panic q ih = cc
    go (ok tail) q ih =
        let e : next ≡ b ∷ tail = cc in
        let (bytes, same) = ih tail q in rw e ((a.0, bytes), ap suc same)

format_ip_some :
    (net : NetLib) (ip : Ip)
    → ((b : ℕ) (rest : Ip) → net.format_ip (b ∷ rest) ≢ [])
    → str_eq (format_ip net ip) [] ≡ false
unfolding format_ip str_eq text
format_ip_some net [] f = refl
format_ip_some net (b ∷ rest) f = ground (arith, f b rest, str_eq_iff (net.format_ip (b ∷ rest)) [])

-- If no address but the nil one prints as nothing, the first address that a machine takes over from
-- its server is external, also when the server has no public IPv4 address.
pub first_address_external :
    (net : NetLib) (server : Server) (status next : HcloudMachineStatus)
    → ((b : ℕ) (rest : Ip) → net.format_ip (b ∷ rest) ≢ [])
    → set_status_from_api net server status ≡ ok next
    → (a : NodeAddress) × (rest : List NodeAddress) × (next.addresses ≡ a ∷ rest)
      × (a.type ≡ external_ip)
      × (a.address ≡ format_ip net server.public_ipv4)
first_address_external net server status next f h = go (ipv6_addresses net server.public_ipv6) refl
  where
    go :
        (r : Result (List NodeAddress))
        → ipv6_addresses net server.public_ipv6 ≡ r
        → (a : NodeAddress) × (rest : List NodeAddress) × (next.addresses ≡ a ∷ rest)
          × (a.type ≡ external_ip)
          × (a.address ≡ format_ip net server.public_ipv4)
    go (err e) q = unfold set_status_from_api in ground arith
    go panic q = unfold set_status_from_api in ground arith
    go (ok ipv6) q = (
      record { type = external_ip; address = format_ip net server.public_ipv4 },
      ipv6 ++ internal_addresses net server.private_net,
      unfold set_status_from_api ipv4_addresses in
          ground (arith, format_ip_some net server.public_ipv4 f),
      refl,
      refl,
    )
