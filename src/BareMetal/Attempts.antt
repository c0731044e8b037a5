-- ===== src/BareMetal/Attempts.antt =====
-- The number of connections that one command may open.
use cluster_api_provider_hcl.Base.{
  Text, ℕ, zero, suc, ◌+◌, ◌≤◌, Option, none, some, [], ◌∷◌, ◌≡◌, refl, arith,
}
use cluster_api_provider_hcl.Exec.{Error, Result, ok, err, panic, Reply, success, refusal, continue}
use cluster_api_provider_hcl.BareMetal.{RobotCall, Trace, RobotEnv, BareMetalScope}
use cluster_api_provider_hcl.BareMetal.Ssh.{connect, run_session, with_connection, run_ssh}

abbrev pub is_dial : RobotCall → ℕ
is_dial (RobotCall.dial ip) = 1
is_dial c = 0

-- The attempts to connect in a trace.
unfoldable pub dials : Trace → ℕ
dials [] = 0
dials (c ∷ t) = is_dial c + dials t

connect-dials :
    (env : RobotEnv) (ip : Text) (n : ℕ) (last : Option Error) (s : BareMetalScope)
    → dials (connect env ip n last s).1.trace ≤ n + dials s.trace
unfolding connect dials
connect-dials env ip zero last s = omega arith
connect-dials env ip (suc n) last s = go (env.dial s.trace ip) refl (connect-dials env ip n)
  where
    go :
        (r : Reply (Unit {0}))
        → env.dial s.trace ip ≡ r
        → ((l : Option Error) (s' : BareMetalScope)
            → dials (connect env ip n l s').1.trace ≤ n + dials s'.trace)
        → dials (connect env ip (suc n) last s).1.trace ≤ suc n + dials s.trace
    go (success _) q ih = rw q (omega arith)
    go (refusal e) q ih = rw q (
        omega (
          arith,
          ih (some e) (record s { trace = RobotCall.sleep 30 ∷ RobotCall.dial ip ∷ s.trace }),
        ))

run_session-dials :
    (env : RobotEnv) (command ip : Text) (s : BareMetalScope)
    → dials (run_session env command ip s).1.trace ≡ dials s.trace
unfolding run_session dials
run_session-dials env command ip s = ground arith

with_connection-dials :
    (env : RobotEnv) (command ip : Text) (o : Option Error) (s : BareMetalScope)
    → dials (with_connection env command ip o s).1.trace ≡ dials s.trace
unfolding with_connection
with_connection-dials env command ip none s = run_session-dials env command ip s
with_connection-dials env command ip (some e) s = refl

-- Whatever the other side answers, a command ends after six attempts to connect at most.
pub run_ssh-dials :
    (env : RobotEnv) (command ip private_key : Text) (s : BareMetalScope)
    → dials (run_ssh env command ip private_key s).1.trace ≤ 6 + dials s.trace
unfolding run_ssh
run_ssh-dials env command ip private_key s = go (env.parse_private_key private_key) refl
  where
    connected :
        (r : Result (Option Error)) (s' : BareMetalScope)
        → dials s'.trace ≤ 6 + dials s.trace
        → dials (continue r (with_connection env command ip) s').1.trace ≤ 6 + dials s.trace
    connected (ok o) s' h = omega (arith, with_connection-dials env command ip o s')
    connected (err e) s' h = h
    connected panic s' h = h

    go :
        (r : Reply (Unit {0}))
        → env.parse_private_key private_key ≡ r
        → dials (run_ssh env command ip private_key s).1.trace ≤ 6 + dials s.trace
    go (success _) q =
        rw (q, run_ssh)
          (connected (connect env ip 6 none s).0 (connect env ip 6 none s).1
            (connect-dials env ip 6 none s))
    go (refusal e) q = rw (q, run_ssh) (omega arith)
