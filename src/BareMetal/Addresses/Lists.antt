-- ===== src/BareMetal/Addresses/Lists.antt =====
-- The machines that a call of the service gets from the list of Robot.
use cluster_api_provider_hcl.Base.{
  Text, text, ℕ, Bool, true, false, Option, none, some, List, [], ◌∷◌, Any, Any-map, if◌then◌else◌,
  ◌≡◌, inl, inr, refl, ◌∙◌, arith, Bool-cases,
}
use cluster_api_provider_hcl.Exec.{ok, success, then_result}
use cluster_api_provider_hcl.Exec.Ensures.{then_result-ok}
use cluster_api_provider_hcl.BareMetal.{RobotServer, RobotCall, RobotEnv, BareMetalScope}
use cluster_api_provider_hcl.BareMetal.Selection.{
  matches, match_servers, matching, list_matching_machines, is_free, first_free, find_new_machine,
  refuse_type,
}

abbrev Same : RobotServer → RobotServer → Type 0
Same server x = x ≡ server

-- A machine that is found free is on the list.
pub first_free-Any :
    (servers : List RobotServer) (server : RobotServer)
    → first_free servers ≡ some server
    → Any (λ x. (x ≡ server) × (is_free x ≡ true)) servers
unfolding first_free
first_free-Any [] server h = absurd (cc)
first_free-Any (x ∷ xs) server h = elim (Bool-cases (is_free x)) [
  | inl free ↦ inl (ground arith, free)
  | inr taken ↦ inr (first_free-Any xs server (ground arith))
]

-- A machine of the result is one of the list, and matches.
match_servers-Any :
    (env : RobotEnv) (now : ℕ) (cluster : Text) (server_type : Option Text)
    (P : RobotServer → Type 0) (servers ms : List RobotServer)
    → match_servers env now cluster server_type servers ≡ ok ms
    → Any P ms
    → Any (λ x. P x × (matches env now cluster server_type x ≡ ok true)) servers
unfolding match_servers
match_servers-Any env now cluster server_type P [] ms h a =
    let none_left : [] ≡ ms = cc in rw (← none_left) at a
match_servers-Any env now cluster server_type P (x ∷ xs) ms h a =
    let (wanted, w, h1) =
      then_result-ok (matches env now cluster server_type x)
        (λ wanted.
          then_result (match_servers env now cluster server_type xs)
            λ more. ok (if wanted then x ∷ more else more))
        ms h in
    let (more, e, h2) =
      then_result-ok (match_servers env now cluster server_type xs)
        (λ more. ok (if wanted then x ∷ more else more)) ms h1 in
    go wanted w more h2 (match_servers-Any env now cluster server_type P xs more e)
  where
    go :
        (wanted : Bool)
        → matches env now cluster server_type x ≡ ok wanted
        → (more : List RobotServer) → ok (if wanted then x ∷ more else more) ≡ ok ms
        → (Any P more → Any (λ y. P y × (matches env now cluster server_type y ≡ ok true)) xs)
        → Any (λ y. P y × (matches env now cluster server_type y ≡ ok true)) (x ∷ xs)
    go true w more h ih =
        let same : x ∷ more ≡ ms = cc in
        elim (rw (← same) at a) [ inl here ↦ inl (here, w) | inr later ↦ inr (ih later) ]
    go false w more h ih = let same : more ≡ ms = cc in inr (ih (rw (← same) at a))

refuse_type-fails :
    (reason message : Text) (s : BareMetalScope) (a : RobotServer)
    → (refuse_type reason message s).0 ≡ ok a
    → ⊥
refuse_type-fails reason message s a h = ground arith

pub find_new_machine-ok :
    (servers : List RobotServer) (s : BareMetalScope) (a : RobotServer)
    → (find_new_machine servers s).0 ≡ ok a
    → first_free servers ≡ some a
unfolding find_new_machine
find_new_machine-ok [] s a h = absurd (refuse_type-fails _ _ s a h)
find_new_machine-ok (x ∷ xs) s a h = go (first_free (x ∷ xs)) refl
  where
    go : (o : Option RobotServer) → first_free (x ∷ xs) ≡ o → first_free (x ∷ xs) ≡ some a
    go none q = absurd (
        refuse_type-fails (text "NoAvailableBareMetalMachines")
          (text "There are no available servers of type %s left") s a (rw q at h))
    go (some b) q = let found : ok b ≡ ok a = rw q at h in q ∙ cc

-- The machine of the address is on the list that Robot gave, passes the test, and matches.
unfoldable pub Listed :
    (RobotServer → Bool) → RobotEnv → ℕ → Text → Option Text → List RobotServer → Text → Type 0
Listed test env now cluster server_type servers ip =
    Any
      (λ x.
        ((x.server_ip ≡ ip) × (test x ≡ true)) × (matches env now cluster server_type x ≡ ok true))
      servers

pub match_servers-Listed :
    (test : RobotServer → Bool) (env : RobotEnv) (now : ℕ) (cluster : Text)
    (server_type : Option Text) (servers ms : List RobotServer) (server : RobotServer)
    → match_servers env now cluster server_type servers ≡ ok ms
    → Any (λ x. (x ≡ server) × (test x ≡ true)) ms
    → Listed test env now cluster server_type servers server.server_ip
unfolding Listed
match_servers-Listed test env now cluster server_type servers ms server e a =
    match_servers-Any env now cluster server_type
      (λ x. (x.server_ip ≡ server.server_ip) × (test x ≡ true)) servers ms e
      (Any-map (λ x. (x ≡ server) × (test x ≡ true)) _ ms (λ x p. (rw (p.0), p.1)) a)

-- `listMatchingMachines` when Robot gives a list.
pub list_matching_machines_lem :
    (env : RobotEnv) (s : BareMetalScope) (servers : List RobotServer)
    → env.list_bm_servers s.trace ≡ success servers
    → list_matching_machines env s ≡ (
      match_servers env
          (env.now (RobotCall.list_bm_servers ∷ s.trace))
          s.cluster_name
          s.machine.spec.server_type
          servers,
      record s { trace = RobotCall.list_bm_servers ∷ s.trace },
    )
unfolding list_matching_machines matching
list_matching_machines_lem env s servers l = rw l
