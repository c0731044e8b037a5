-- ===== src/BareMetal/Selection.antt =====
-- Which machine of Robot belongs to a resource, and which is free: `listMatchingMachines`,
-- `findAttachedMachine` and `findNewMachine`.
use cluster_api_provider_hcl.Base.{
  Text, text, ℕ, suc, ◌+◌, ◌*◌, Bool, true, false, not, Option, none, some, List, [], ◌∷◌, str_eq,
  ltb, ◌==◌, if◌then◌else◌,
}
use cluster_api_provider_hcl.Exec.{
  failure, wrapped, Result, ok, err, panic, success, refusal, Exec, pure, fail, gets, deref,
  then_result, ◌>>=◌, ◌>>◌,
}
use cluster_api_provider_hcl.BareMetal.{
  RobotServer, RobotCall, RobotEnv, BareMetalScope, ask, eventf, on_reply, on_option,
}
use cluster_api_provider_hcl.BareMetal.Names.{split_name}

-- `hoursBeforeDeletion`
abbrev pub hours_before_deletion : ℕ
hours_before_deletion = 36

-- `!paidUntil.Before(time.Now().Add(hoursBeforeDeletion * time.Hour))`, in seconds.
unfoldable pub paid_long_enough : RobotEnv → ℕ → Text → Result Bool
paid_long_enough env now paid_until = elim (env.parse_date paid_until) [
  | refusal e ↦ err (wrapped (text "ERROR: Failed to parse paidUntil date. Error: %s") e)
  | success date ↦ ok (not (ltb date (now + hours_before_deletion * 3600)))
]

-- `*Spec.ServerType`
abbrev pub with_type : Option Text → (Text → Result Bool) → Result Bool
with_type none f = panic
with_type (some t) f = f t

-- The two conditions of the loop, by the parts of a name.
abbrev pub matches_parts : RobotEnv → ℕ → Text → Option Text → RobotServer → List Text → Result Bool
matches_parts env now cluster server_type server (a ∷ b ∷ []) = with_type server_type λ t.
    if str_eq a t
    then (if server.cancelled then paid_long_enough env now server.paid_until else ok true)
    else ok false
matches_parts env now cluster server_type server (a ∷ b ∷ c ∷ []) =
    if str_eq a cluster then with_type server_type (λ t. ok (str_eq b t)) else ok false
matches_parts env now cluster server_type server parts = ok false

unfoldable pub matches : RobotEnv → ℕ → Text → Option Text → RobotServer → Result Bool
unfolding split_name paid_long_enough
matches env now cluster server_type server =
    matches_parts env now cluster server_type server (split_name server.server_name)

-- The loop of `listMatchingMachines`.
unfoldable pub match_servers :
    RobotEnv → ℕ → Text → Option Text → List RobotServer → Result (List RobotServer)
unfolding matches
match_servers env now cluster server_type [] = ok []
match_servers env now cluster server_type (server ∷ servers) =
    let later = match_servers env now cluster server_type servers in
    then_result (matches env now cluster server_type server)
      λ wanted. then_result later λ more. ok (if wanted then server ∷ more else more)

-- The machines that match, at the time of the call.
unfoldable pub matching : RobotEnv → List RobotServer → Exec BareMetalScope (List RobotServer)
unfolding match_servers
matching env servers s =
    (match_servers env (env.now s.trace) s.cluster_name s.machine.spec.server_type servers, s)

unfoldable pub list_matching_machines : RobotEnv → Exec BareMetalScope (List RobotServer)
unfolding matching
list_matching_machines env = do
  reply ← ask RobotCall.list_bm_servers (λ h. env.list_bm_servers h)
  on_reply reply (matching env) (λ e. (do
    server_type ← gets (λ s. s.machine.spec.server_type)
    deref server_type
    eventf (text "ErrorListingBareMetalMachines")
    fail (wrapped (text "unable to list bare metal servers: %s") e)))

abbrev pub is_attached_parts : Text → List Text → Bool
is_attached_parts name (a ∷ b ∷ c ∷ []) = str_eq c name
is_attached_parts name parts = false

-- Whether a machine of Robot has the resource's name as its third part.
unfoldable pub is_attached : Text → RobotServer → Bool
unfolding split_name
is_attached name server = is_attached_parts name (split_name server.server_name)

-- `check` and `actualServer` after the loop of `findAttachedMachine`.
unfoldable pub scan_attached :
    Text → List RobotServer → ℕ → Option RobotServer → ℕ × Option RobotServer
unfolding is_attached
scan_attached name [] check found = (check, found)
scan_attached name (server ∷ servers) check found =
    scan_attached name servers (if is_attached name server then suc check else check)
      (if is_attached name server then some server else found)

abbrev pub attached_result : ℕ → Option RobotServer → Exec BareMetalScope (Option RobotServer)
attached_result check found =
    if ltb 1 check
    then (do
      eventf (text "MultipleBareMetalMachines")
      fail (failure (text "There are %s servers which are attached to the cluster with name %s")))
    else if check == 0
    then pure none
    else pure found

unfoldable pub find_attached_machine : List RobotServer → Exec BareMetalScope (Option RobotServer)
unfolding scan_attached
find_attached_machine servers = do
  name ← gets (λ s. s.machine.name)
  let (check, found) = scan_attached name servers 0 none
  attached_result check found

abbrev pub is_free_parts : List Text → Bool
is_free_parts (a ∷ b ∷ []) = true
is_free_parts parts = false

unfoldable pub is_free : RobotServer → Bool
unfolding split_name
is_free server = is_free_parts (split_name server.server_name)

unfoldable pub first_free : List RobotServer → Option RobotServer
unfolding is_free
first_free [] = none
first_free (server ∷ servers) =
    let later = first_free servers in if is_free server then some server else later

-- An event and an error that name the type of the machine.
abbrev pub refuse_type : Text → Text → Exec BareMetalScope RobotServer
refuse_type reason message = do
  server_type ← gets (λ s. s.machine.spec.server_type)
  deref server_type
  eventf reason
  fail (failure message)

unfoldable pub find_new_machine : List RobotServer → Exec BareMetalScope RobotServer
unfolding first_free
find_new_machine [] =
    refuse_type (text "EmptyListBareMetalMachines") (text "No bare metal server found with type %s")
find_new_machine (server ∷ servers) =
    on_option (first_free (server ∷ servers))
      (refuse_type (text "NoAvailableBareMetalMachines")
        (text "There are no available servers of type %s left"))
      pure
