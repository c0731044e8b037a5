-- ===== src/Server/Removal.antt =====
-- What `Delete` of the server service has done when it lets go of the machine.
use cluster_api_provider_hcl.Base.{text, none, List, [], ◌∷◌, ◌≡◌, ◌⊎◌, inl, inr, refl, arith}
use cluster_api_provider_hcl.Exec.{ok, Reply, success, refusal, wrapping, ◌>>◌}
use cluster_api_provider_hcl.Exec.Ensures.{Ensures, Ensures-bind}
use cluster_api_provider_hcl.Api.{ServerStatus, running, off, other_status}
use cluster_api_provider_hcl.Hcloud.{Call, History, Server, Env}
use cluster_api_provider_hcl.Scope.{ClusterScope, MachineScope}
use cluster_api_provider_hcl.Server.{selector, delete_server_of_load_balancer, remove, delete}

-- The answer to the search for the machine's server.
abbrev pub listed : Env → MachineScope → Reply (List Server)
listed env s = env.hcloud.list_servers s.cluster_scope.trace (selector s)

-- The server was off, the cloud accepted its deletion, and nothing was requested afterwards.
abbrev pub Removed : Env → Server → History → Type 0
Removed env server trace =
    (server.status ≡ off)
    × ((t : History) × (env.hcloud.delete_server t server.id ≡ success tt)
        × (trace
            ≡ Call.event (text "HcloudServerDeleted") (text "Hcloud server %s deleted")
              ∷ Call.delete_server server.id
              ∷ t))

remove_off :
    (env : Env) (server : Server) (s : ClusterScope)
    → server.status ≡ off
    → (remove env server s).0 ≡ ok none
    → Removed env server (remove env server s).1.trace
remove_off env server s o = go (env.hcloud.delete_server s.trace server.id) refl
  where
    go :
        (r : Reply (Unit {0}))
        → env.hcloud.delete_server s.trace server.id ≡ r
        → (remove env server s).0 ≡ ok none
        → Removed env server (remove env server s).1.trace
    go (success u) e h = (o, (s.trace, e, unfold remove in rw o (rw e)))
    go (refusal x) e h = unfold remove in ground arith

remove_removes :
    (env : Env) (server : Server)
    → Ensures none (λ s. Removed env server s.trace) (remove env server)
remove_removes env server = record { at = λ s h. go s server.status refl h }
  where
    go :
        (s : ClusterScope) (status : ServerStatus)
        → server.status ≡ status
        → (remove env server s).0 ≡ ok none
        → Removed env server (remove env server s).1.trace
    go s running e h = unfold remove in ground arith
    go s off e h = remove_off env server s e h
    go s (other_status t) e h = unfold remove in ground arith

-- What holds of the cloud when `Delete` has nothing left to do.
abbrev pub Gone : Env → MachineScope → History → Type 0
Gone env s trace =
    (listed env s ≡ success [])
    ⊎ ((server : Server) × (listed env s ≡ success (server ∷ [])) × Removed env server trace)

detached :
    (env : Env) (server : Server)
    → Ensures none
        (λ s. Removed env server s.trace)
        (wrapping
            (text "Error while deleting attached server of loadbalancer: %s")
            (delete_server_of_load_balancer env server)
          >> remove env server)
detached env server =
    Ensures-bind
      (wrapping (text "Error while deleting attached server of loadbalancer: %s")
        (delete_server_of_load_balancer env server))
      (λ u. remove env server) (λ u. remove_removes env server)

-- When `Delete` of a machine's server ends with neither an error nor a time to come back, the cloud
-- listed no server with the machine's labels, or exactly one, which was off and whose deletion the
-- cloud accepted.
pub server_delete-Gone :
    (env : Env) (s : MachineScope)
    → (delete env s).0 ≡ ok none
    → Gone env s (delete env s).1.cluster_scope.trace
server_delete-Gone env s h = go (listed env s) refl h
  where
    go :
        (r : Reply (List Server))
        → listed env s ≡ r
        → (delete env s).0 ≡ ok none
        → Gone env s (delete env s).1.cluster_scope.trace
    go (refusal e) q h = unfold delete in ground arith
    go (success []) q h = inl q
    go (success (server ∷ [])) q h = inr (
      server,
      q,
      unfold delete in
          rw q (
            (detached env server).at
              (record (s.cluster_scope) {
                trace = Call.list_servers (selector s) ∷ s.cluster_scope.trace;
              })
              (unfold delete in rw q at h)),
    )
    go (success (a ∷ b ∷ servers)) q h = unfold delete in ground arith
