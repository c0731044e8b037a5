-- ===== src/BareMetal/Ownership.antt =====
-- What the service makes of the names that it gives.
use cluster_api_provider_hcl.Base.{
  Text, text, ℕ, suc, ◌+◌, true, false, Option, none, some, List, [], ◌∷◌, ◌++◌, filter, length,
  str_eq, str_eq_refl, ◌≡◌, ap, ◌∙◌, arith, Bool-cases, inl, inr,
}
use cluster_api_provider_hcl.Exec.{failure, Result, ok, err}
use cluster_api_provider_hcl.BareMetal.{RobotServer, RobotEnv, BareMetalScope}
use cluster_api_provider_hcl.BareMetal.Names.{
  split_name, attached_name, unused_name, is_part, is_closed_part, split_name-attached_name,
  split_name-unused_name,
}
use cluster_api_provider_hcl.BareMetal.Selection.{
  matches, is_attached, is_free, scan_attached, attached_result, find_attached_machine,
}

module _ (env : RobotEnv) (now : ℕ) (cluster server_type machine : Text)
    (server : RobotServer) where
  -- A machine with the name that `provisionMachine` sets is listed for the cluster and the type, is
  -- attached for the resource of that name and for no other, and is not free.
  pub attached_name-matches :
      is_closed_part cluster ≡ true
      → is_closed_part server_type ≡ true
      → is_part machine ≡ true
      → server.server_name ≡ attached_name cluster server_type machine
      → (matches env now cluster (some server_type) server ≡ ok true)
        × ((name : Text) → is_attached name server ≡ str_eq machine name)
        × (is_free server ≡ false)
  unfolding matches is_attached is_free
  attached_name-matches c t m named =
      (rw parts (rw (str_eq_refl cluster, str_eq_refl server_type)), λ name. rw parts, rw parts)
    where
      parts : split_name server.server_name ≡ cluster ∷ server_type ∷ machine ∷ []
      parts = ap split_name named ∙ split_name-attached_name cluster server_type machine c t m

  -- A machine with the name that `Delete` sets, and that is not cancelled, is listed for every
  -- cluster and the type, is free, and is attached for no resource.
  pub unused_name-matches :
      is_closed_part server_type ≡ true
      → is_part (45 ∷ machine) ≡ true
      → server.server_name ≡ unused_name server_type machine
      → server.cancelled ≡ false
      → (matches env now cluster (some server_type) server ≡ ok true)
        × (is_free server ≡ true)
        × ((name : Text) → is_attached name server ≡ false)
  unfolding matches is_attached is_free
  unused_name-matches t m named live =
      (rw parts (rw (str_eq_refl server_type, live)), rw parts, λ name. rw parts)
    where
      parts : split_name server.server_name ≡ server_type ∷ (text "unused-" ++ machine) ∷ []
      parts = ap split_name named ∙ split_name-unused_name server_type machine t m

-- The reference: the machines that are attached for the name.
unfoldable pub attached_to : Text → List RobotServer → List RobotServer
attached_to name servers = filter (is_attached name) servers

-- The last of a list, or what was there before.
abbrev last_or : Option RobotServer → List RobotServer → Option RobotServer
last_or found [] = found
last_or found (x ∷ xs) = last_or (some x) xs

scan_attached_lem :
    (name : Text) (servers : List RobotServer) (check : ℕ) (found : Option RobotServer)
    → scan_attached name servers check found
      ≡ (check + length (attached_to name servers), last_or found (attached_to name servers))
unfolding scan_attached attached_to
scan_attached_lem name [] check found = ground arith
scan_attached_lem name (server ∷ servers) check found =
    elim (Bool-cases (is_attached name server)) [
      | inl here ↦ rw here (scan_attached_lem name servers (suc check) (some server) ∙ ground arith)
      | inr other ↦ rw other (scan_attached_lem name servers check found)
    ]

-- What `findAttachedMachine` promises of the machines that are attached for the resource's name:
-- none gives none, one gives that one, and more give an error.
abbrev pub attached_spec : List RobotServer → Result (Option RobotServer)
attached_spec [] = ok none
attached_spec (server ∷ []) = ok (some server)
attached_spec (server ∷ other ∷ servers) =
    err (failure (text "There are %s servers which are attached to the cluster with name %s"))

-- `findAttachedMachine` returns what the list of the machines attached for the resource's name
-- determines: none for none, the machine for one, and an error for more.
pub find_attached_machine_lem :
    (servers : List RobotServer) (s : BareMetalScope)
    → (find_attached_machine servers s).0 ≡ attached_spec (attached_to s.machine.name servers)
unfolding find_attached_machine
find_attached_machine_lem servers s =
    rw (scan_attached_lem s.machine.name servers 0 none) (go (attached_to s.machine.name servers))
  where
    go :
        (l : List RobotServer)
        → (attached_result (0 + length l) (last_or none l) s).0 ≡ attached_spec l
    go [] = ground arith
    go (a ∷ []) = ground arith
    go (a ∷ b ∷ l) = ground arith
