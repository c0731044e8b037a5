-- ===== src/BareMetal/Addresses/Deletion.antt =====
-- Which machine `Delete` addresses.
use cluster_api_provider_hcl.Base.{
  Text, text, true, Option, none, some, List, [], ◌∷◌, All, Any, ◌≡◌, inl, inr, ◌∙◌, sym, arith,
  Bool-cases,
}
use cluster_api_provider_hcl.Exec.{◌>>◌, Error, ok, success, Exec, pure, fail, wrapped}
use cluster_api_provider_hcl.Exec.Ensures.{handle_after}
use cluster_api_provider_hcl.Server.{Requeue}
use cluster_api_provider_hcl.BareMetal.{
  RobotServer, RobotCall, RobotEnv, BareMetalScope, eventf, on_option,
}
use cluster_api_provider_hcl.BareMetal.Selection.{
  list_matching_machines, find_attached_machine, is_attached,
}
use cluster_api_provider_hcl.BareMetal.Service.{
  on_rate_limit, rate_limit_time_out_deletion, give_back, delete_servers, delete,
}
use cluster_api_provider_hcl.BareMetal.Ownership.{
  attached_to, attached_spec, find_attached_machine_lem,
}
use cluster_api_provider_hcl.BareMetal.Addresses.{
  Addresses, Allowed, addresses_rules, Addresses-fail,
}
use cluster_api_provider_hcl.BareMetal.Addresses.Commands.{or_fail-Addresses}
use cluster_api_provider_hcl.BareMetal.Addresses.Lists.{
  Listed, match_servers-Listed, list_matching_machines_lem,
}
use cluster_api_provider_hcl.BareMetal.Addresses.Machines.{
  on_rate_limit-Addresses, find_attached_machine-Addresses,
}

attached_to-Any :
    (name : Text) (servers : List RobotServer) (server : RobotServer)
    → attached_to name servers ≡ server ∷ []
    → Any (λ x. (x ≡ server) × (is_attached name x ≡ true)) servers
unfolding attached_to
attached_to-Any name [] server h = absurd (cc)
attached_to-Any name (x ∷ xs) server h = elim (Bool-cases (is_attached name x)) [
  | inl here ↦ inl (ground arith, here)
  | inr other ↦ inr (attached_to-Any name xs server (ground arith))
]

attached_spec-some :
    (l : List RobotServer) (server : RobotServer)
    → attached_spec l ≡ ok (some server)
    → l ≡ server ∷ []
attached_spec-some [] server h = absurd (cc)
attached_spec-some (a ∷ []) server h = ground arith
attached_spec-some (a ∷ b ∷ l) server h = absurd (cc)

-- A machine that is found attached is on the list.
find_attached_machine-Any :
    (servers : List RobotServer) (s : BareMetalScope) (server : RobotServer)
    → (find_attached_machine servers s).0 ≡ ok (some server)
    → Any (λ x. (x ≡ server) × (is_attached s.machine.name x ≡ true)) servers
find_attached_machine-Any servers s server h = attached_to-Any s.machine.name servers server (
    attached_spec-some (attached_to s.machine.name servers) server
      (sym (find_attached_machine_lem servers s) ∙ h))

give_back-Addresses :
    {Q : Text → Type 0} (env : RobotEnv) (server : RobotServer)
    → Q server.server_ip
    → Addresses Q (give_back env server)
unfolding give_back Allowed
give_back-Addresses env server own = search (addresses_rules, or_fail-Addresses, own) depth 20

-- What a failed call of `Delete` goes on with.
abbrev others : Text → Error → Exec BareMetalScope Requeue
others message e = on_rate_limit rate_limit_time_out_deletion (fail (wrapped message e)) e

others-Addresses :
    {Q : Text → Type 0} (env : RobotEnv) (message : Text) (e : Error)
    → Addresses Q (others message e)
others-Addresses env message e =
    on_rate_limit-Addresses env rate_limit_time_out_deletion (fail (wrapped message e)) e
      (Addresses-fail (wrapped message e))

delete_servers-Allowed :
    (Q : Text → Type 0) (env : RobotEnv) (servers : List RobotServer) (s : BareMetalScope)
    → ((server : RobotServer)
        → Any (λ x. (x ≡ server) × (is_attached s.machine.name x ≡ true)) servers
        → Q server.server_ip)
    → All (Allowed Q) s.trace
    → All (Allowed Q) (delete_servers env servers s).1.trace
unfolding delete_servers Allowed
delete_servers-Allowed Q env servers s own before =
    handle_after (λ s. All (Allowed Q) s.trace) (find_attached_machine servers) next
      (others (text "failed to find attached machine")) s go
      (λ e. (others-Addresses env (text "failed to find attached machine") e).at _ after) after
  where
    next : Option RobotServer → Exec BareMetalScope Requeue
    next o = on_option o (eventf (text "UnknownBareMetalMachine") >> pure none) (give_back env)

    after : All (Allowed Q) (find_attached_machine servers s).1.trace
    after = (find_attached_machine-Addresses env servers).at s before

    go :
        (o : Option RobotServer)
        → (find_attached_machine servers s).0 ≡ ok o
        → All (Allowed Q) (next o (find_attached_machine servers s).1).1.trace
    go none e = (tt, after)
    go (some server) e =
        (give_back-Addresses env server
            (own server (find_attached_machine-Any servers s server e))).at
          _ after

-- Every machine that `Delete` renames, resets, brings into the rescue system or runs a command on
-- is, on the list that Robot gave at its start, attached for the resource that is deleted, and
-- matches for its cluster and type.
pub delete-Allowed :
    (env : RobotEnv) (s : BareMetalScope) (servers : List RobotServer)
    → s.trace ≡ []
    → env.list_bm_servers s.trace ≡ success servers
    → All
        (Allowed (
          Listed
            (is_attached s.machine.name)
            env
            (env.now (RobotCall.list_bm_servers ∷ s.trace))
            s.cluster_name
            s.machine.spec.server_type
            servers))
        (delete env s).1.trace
unfolding delete Allowed
delete-Allowed env s servers t l =
    handle_after (λ s. All (Allowed Q) s.trace) (list_matching_machines env) (delete_servers env)
      (others (text "failed to refresh server status")) s go
      (λ e. (others-Addresses env (text "failed to refresh server status") e).at _ listed) listed
  where
    Q : Text → Type 0
    Q =
        Listed (is_attached s.machine.name) env (env.now (RobotCall.list_bm_servers ∷ s.trace))
          s.cluster_name s.machine.spec.server_type servers

    listed : All (Allowed Q) (list_matching_machines env s).1.trace
    listed = rw (list_matching_machines_lem env s servers l, t) (tt, tt)

    go :
        (ms : List RobotServer)
        → (list_matching_machines env s).0 ≡ ok ms
        → All (Allowed Q) (delete_servers env ms (list_matching_machines env s).1).1.trace
    go ms e =
        delete_servers-Allowed Q env ms (list_matching_machines env s).1
          (rw (list_matching_machines_lem env s servers l) (λ server a.
            match_servers-Listed (is_attached s.machine.name) env
              (env.now (RobotCall.list_bm_servers ∷ s.trace)) s.cluster_name
              s.machine.spec.server_type servers ms server
              (rw (list_matching_machines_lem env s servers l) at e) a))
          listed
