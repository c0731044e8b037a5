-- ===== src/BareMetal/Addresses.antt =====
-- Which machines the service addresses: one rule for each way to build a call.
pub mod Commands
pub mod Lists
pub mod Machines
pub mod Deletion
use cluster_api_provider_hcl.Base.{
  Text, ℕ, Bool, true, false, Option, none, some, List, [], ◌∷◌, All, if◌then◌else◌, ◌≡◌, refl,
}
use cluster_api_provider_hcl.Exec.{
  Error, Result, ok, err, panic, Reply, success, refusal, Exec, pure, fail, crash, gets, of_result,
  deref, modify, wrapping, wrap_result, handle, continue, ◌>>=◌, ◌>>◌,
}
use cluster_api_provider_hcl.BareMetal.{
  BareMetalMachine, RobotCall, Trace, BareMetalScope, ask, call, record_call, update_machine,
  on_reply, on_option,
}

-- The address of the machine that a call changes, or runs a command on.
unfoldable pub addressed : RobotCall → Option Text
addressed (RobotCall.set_bm_server_name ip name) = some ip
addressed (RobotCall.activate_rescue ip fingerprint) = some ip
addressed (RobotCall.reset_bm_server ip) = some ip
addressed (RobotCall.dial ip) = some ip
addressed (RobotCall.new_session ip) = some ip
addressed (RobotCall.run ip command) = some ip
addressed c = none

-- A machine that the call addresses satisfies the predicate.
unfoldable pub Allowed : (Text → Type 0) → RobotCall → Type 0
unfolding addressed
Allowed Q c = elim (addressed c) [ none ↦ Unit | some ip ↦ Q ip ]

-- Every call that `m` adds to the trace is allowed.
pub record Addresses {A : Type 0} (Q : Text → Type 0) (m : Exec BareMetalScope A) : Type 0 where
  pub at : (s : BareMetalScope) → All (Allowed Q) s.trace → All (Allowed Q) (m s).1.trace

module _ {A : Type 0} {Q : Text → Type 0} where
  pub Addresses-pure : (a : A) → Addresses Q (pure a)
  Addresses-pure a = record { at = λ s h. h }

  pub Addresses-fail : (e : Error) → Addresses Q (fail {A = A} e)
  Addresses-fail e = record { at = λ s h. h }

  pub Addresses-of_result : (r : Result A) → Addresses Q (of_result r)
  Addresses-of_result r = record { at = λ s h. h }

  pub Addresses-gets : (f : BareMetalScope → A) → Addresses Q (gets f)
  Addresses-gets f = record { at = λ s h. h }

  pub Addresses-crash : Addresses Q (crash {A = A})
  Addresses-crash = record { at = λ s h. h }

  pub Addresses-deref : (o : Option A) → Addresses Q (deref o)
  Addresses-deref none = record { at = λ s h. h }
  Addresses-deref (some a) = record { at = λ s h. h }

  pub Addresses-ask : (c : RobotCall) (f : Trace → Reply A) → Allowed Q c → Addresses Q (ask c f)
  Addresses-ask c f q = record { at = λ s h. (q, h) }

  pub Addresses-call : (c : RobotCall) (f : Trace → Reply A) → Allowed Q c → Addresses Q (call c f)
  Addresses-call c f q = record { at = λ s h. (q, h) }

  pub Addresses-wrapping :
      (t : Text) (m : Exec BareMetalScope A) → Addresses Q m → Addresses Q (wrapping t m)
  Addresses-wrapping t m k = record { at = λ s h. k.at s h }

  pub Addresses-if :
      (b : Bool) (m n : Exec BareMetalScope A)
      → Addresses Q m
      → Addresses Q n
      → Addresses Q (if b then m else n)
  Addresses-if true m n km kn = km
  Addresses-if false m n km kn = kn

module _ {A B : Type 0} {Q : Text → Type 0} where
  Addresses-continue :
      (r : Result A) (f : A → Exec BareMetalScope B)
      → ((a : A) → Addresses Q (f a))
      → Addresses Q (continue r f)
  Addresses-continue (ok a) f k = k a
  Addresses-continue (err e) f k = record { at = λ s h. h }
  Addresses-continue panic f k = record { at = λ s h. h }

  pub Addresses-bind :
      (m : Exec BareMetalScope A) (f : A → Exec BareMetalScope B)
      → Addresses Q m
      → ((a : A) → Addresses Q (f a))
      → Addresses Q (m >>= f)
  Addresses-bind m f km kf = record {
    at = λ s h. (Addresses-continue (m s).0 f kf).at (m s).1 (km.at s h);
  }

  -- The rest needs to be looked at for the values only that the call may end with.
  pub Addresses-bind_if :
      (V : A → Type 0) (m : Exec BareMetalScope A) (f : A → Exec BareMetalScope B)
      → ((s : BareMetalScope) (a : A) → (m s).0 ≡ ok a → V a)
      → Addresses Q m
      → ((a : A) → V a → Addresses Q (f a))
      → Addresses Q (m >>= f)
  Addresses-bind_if V m f v km kf = record { at = λ s h. go s (m s).0 refl (km.at s h) }
    where
      go :
          (s : BareMetalScope) (r : Result A)
          → (m s).0 ≡ r
          → All (Allowed Q) (m s).1.trace
          → All (Allowed Q) (continue r f (m s).1).1.trace
      go s (ok a) q h = (kf a (v s a q)).at (m s).1 h
      go s (err e) q h = h
      go s panic q h = h

  Addresses-handled :
      (r : Result A) (k : A → Exec BareMetalScope B) (e : Error → Exec BareMetalScope B)
      → ((a : A) → Addresses Q (k a))
      → ((x : Error) → Addresses Q (e x))
      → (s : BareMetalScope) → All (Allowed Q) s.trace
      → All
          (Allowed Q)
          (elim r as (λ _. Result B × BareMetalScope) [
            | ok a ↦ k a s
            | err x ↦ e x s
            | panic ↦ (panic, s)
          ]).1.trace
  Addresses-handled (ok a) k e f g s h = (f a).at s h
  Addresses-handled (err x) k e f g s h = (g x).at s h
  Addresses-handled panic k e f g s h = h

  pub Addresses-handle :
      (m : Exec BareMetalScope A) (k : A → Exec BareMetalScope B)
      (e : Error → Exec BareMetalScope B)
      → Addresses Q m
      → ((a : A) → Addresses Q (k a))
      → ((x : Error) → Addresses Q (e x))
      → Addresses Q (handle m k e)
  Addresses-handle m k e km kk ke = record {
    at = λ s h. Addresses-handled (m s).0 k e kk ke (m s).1 (km.at s h);
  }

  pub Addresses-reply :
      (r : Reply A) (f : A → Exec BareMetalScope B) (g : Error → Exec BareMetalScope B)
      → ((a : A) → Addresses Q (f a))
      → ((e : Error) → Addresses Q (g e))
      → Addresses Q (on_reply r f g)
  Addresses-reply (success a) f g k l = k a
  Addresses-reply (refusal e) f g k l = l e

  pub Addresses-option :
      (o : Option A) (m : Exec BareMetalScope B) (f : A → Exec BareMetalScope B)
      → Addresses Q m
      → ((a : A) → Addresses Q (f a))
      → Addresses Q (on_option o m f)
  Addresses-option none m f k l = k
  Addresses-option (some a) m f k l = l a

module _ {Q : Text → Type 0} where
  pub Addresses-record_call : (c : RobotCall) → Allowed Q c → Addresses Q (record_call c)
  Addresses-record_call c q = record { at = λ s h. (q, h) }

  pub Addresses-update_machine :
      (f : BareMetalMachine → BareMetalMachine) → Addresses Q (update_machine f)
  Addresses-update_machine f = record { at = λ s h. h }

pub ruleset addresses_rules = (
  Addresses-pure, Addresses-fail, Addresses-of_result, Addresses-gets, Addresses-deref,
  Addresses-ask, Addresses-call, Addresses-crash, Addresses-wrapping, Addresses-if, Addresses-bind,
  Addresses-handle, Addresses-record_call, Addresses-update_machine, Addresses-reply,
  Addresses-option,
)
