-- ===== src/Exec.antt =====
-- Go functions that mutate objects, call the APIs of other systems, and may return an error or
-- panic. What was written before an error stays written, so the state comes back in every case.
pub mod Ensures
pub mod Keeps
use cluster_api_provider_hcl.Base.{Text, Bool, true, false, Option, none, some}

-- An error value. A message is its format string, without the values that it prints; a wrapped
-- error keeps its cause, as `errors.Wrap` and `%s` of an error do.
pub data Error : Type 0 where
  failure : Text → Error
  wrapped : Text → Error → Error
  not_found : Error
  no_ready_api_server failure_domain_not_found bootstrap_data_not_ready : Error

-- How a call ends: with a value, with an error, or by a run-time panic.
pub data Result {ℓ} (A : Type ℓ) : Type ℓ where
  ok : A → Result A
  err : Error → Result A
  panic : Result A

-- What another system answers to a request.
pub data Reply {ℓ} (A : Type ℓ) : Type ℓ where
  success : A → Reply A
  refusal : Error → Reply A

abbrev pub Exec {ℓ} : Type ℓ → Type ℓ → Type ℓ
Exec S A = S → Result A × S

abbrev pub wrap_result {ℓ} : {A : Type ℓ} → Text → Result A → Result A
wrap_result m (ok a) = ok a
wrap_result m (err e) = err (wrapped m e)
wrap_result m panic = panic

module _ {ℓ} {S A : Type ℓ} where
  abbrev pub pure : A → Exec S A
  pure a s = (ok a, s)

  abbrev pub fail : Error → Exec S A
  fail e s = (err e, s)

  -- A nil dereference, an index out of range.
  abbrev pub crash : Exec S A
  crash s = (panic, s)

  abbrev pub gets : (S → A) → Exec S A
  gets f s = (ok (f s), s)

  abbrev pub of_result : Result A → Exec S A
  of_result r s = (r, s)

  -- `*p`, or an index into a slice.
  abbrev pub deref : Option A → Exec S A
  deref none s = (panic, s)
  deref (some a) s = (ok a, s)

  -- `if err != nil { return errors.Wrap(err, m) }`
  abbrev pub wrapping : Text → Exec S A → Exec S A
  wrapping m x s = let (r, s') = x s in (wrap_result m r, s')

module _ {ℓ} {S A B : Type ℓ} where
  abbrev pub continue : Result A → (A → Exec S B) → Exec S B
  continue (ok a) f s = f a s
  continue (err e) f s = (err e, s)
  continue panic f s = (panic, s)

  infixl 5 ◌>>=◌ ◌>>◌
  abbrev pub ◌>>=◌ : Exec S A → (A → Exec S B) → Exec S B
  ◌>>=◌ m f s = let (r, s') = m s in continue r f s'

  abbrev pub ◌>>◌ : Exec S A → Exec S B → Exec S B
  m >> k = m >>= λ _. k

  -- `a, err := x; if err != nil { ... }` with a body of its own for the error.
  abbrev pub handle : Exec S A → (A → Exec S B) → (Error → Exec S B) → Exec S B
  handle x k h s =
      let (r, s') = x s in elim r [ ok a ↦ k a s' | err e ↦ h e s' | panic ↦ (panic, s') ]

-- A sequence of results.
abbrev pub then_result {ℓ} : {A B : Type ℓ} → Result A → (A → Result B) → Result B
then_result (ok a) f = f a
then_result (err e) f = err e
then_result panic f = panic

-- A state that is part of a larger one.
module _ {ℓ} {S T A : Type ℓ} (get : T → S) (set : S → T → T) where
  abbrev pub within : Exec S A → Exec T A
  within m t = let (r, s') = m (get t) in (r, set s' t)

abbrev pub modify {ℓ} : {S : Type ℓ} → (S → S) → S → Result (Unit {ℓ}) × S
modify f s = (ok tt, f s)

-- Whether a call ended with a value.
abbrev pub succeeds {ℓ} : {A : Type ℓ} → Result A → Bool
succeeds (ok a) = true
succeeds (err e) = false
succeeds panic = false
