-- ===== src/Exec/Keeps.antt =====
-- What a call leaves as it was: one rule for each way to build a call.
use cluster_api_provider_hcl.Base.{
  Text, Bool, true, false, Option, none, some, if◌then◌else◌, ◌≡◌, ◌≢◌, ◌⊎◌, inl, inr, refl, ◌∙◌,
}
use cluster_api_provider_hcl.Exec.{
  Error, Result, ok, err, panic, Exec, pure, fail, gets, of_result, deref, wrapping, continue,
  ◌>>=◌,
}

-- However `m` ends, `f` is of the state that it leaves what it was before.
pub record Keeps {S A V : Type 0} (f : S → V) (m : Exec S A) : Type 0 where
  pub at : (s : S) → f (m s).1 ≡ f s

-- The same, unless `m` ends with the value `b`.
pub record KeepsUnless {S B V : Type 0} (b : B) (f : S → V) (m : Exec S B) : Type 0 where
  pub at : (s : S) → (m s).0 ≢ ok b → f (m s).1 ≡ f s

module _ {S A V : Type 0} {f : S → V} where
  pub Keeps-pure : (a : A) → Keeps f (pure a)
  Keeps-pure a = record { at = λ s. refl }

  pub Keeps-fail : (e : Error) → Keeps f (fail {A = A} e)
  Keeps-fail e = record { at = λ s. refl }

  pub Keeps-gets : (g : S → A) → Keeps f (gets g)
  Keeps-gets g = record { at = λ s. refl }

  pub Keeps-of_result : (r : Result A) → Keeps f (of_result r)
  Keeps-of_result r = record { at = λ s. refl }

  pub Keeps-deref : (o : Option A) → Keeps f (deref o)
  Keeps-deref none = record { at = λ s. refl }
  Keeps-deref (some a) = record { at = λ s. refl }

  pub Keeps-wrapping : (t : Text) (m : Exec S A) → Keeps f m → Keeps f (wrapping t m)
  Keeps-wrapping t m k = record { at = λ s. k.at s }

  pub Keeps-if : (b : Bool) (m n : Exec S A) → Keeps f m → Keeps f n → Keeps f (if b then m else n)
  Keeps-if true m n k l = k
  Keeps-if false m n k l = l

module _ {S A B V : Type 0} {f : S → V} where
  Keeps-continue :
      (r : Result A) (k : A → Exec S B) → ((a : A) → Keeps f (k a)) → Keeps f (continue r k)
  Keeps-continue (ok a) k h = h a
  Keeps-continue (err e) k h = record { at = λ s. refl }
  Keeps-continue panic k h = record { at = λ s. refl }

  pub Keeps-bind :
      (m : Exec S A) (k : A → Exec S B) → Keeps f m → ((a : A) → Keeps f (k a)) → Keeps f (m >>= k)
  Keeps-bind m k hm hk = record { at = λ s. (Keeps-continue (m s).0 k hk).at (m s).1 ∙ hm.at s }

  KeepsUnless-continue :
      (b : B) (r : Result A) (k : A → Exec S B)
      → ((a : A) → KeepsUnless b f (k a))
      → KeepsUnless b f (continue r k)
  KeepsUnless-continue b (ok a) k h = h a
  KeepsUnless-continue b (err e) k h = record { at = λ s n. refl }
  KeepsUnless-continue b panic k h = record { at = λ s n. refl }

  pub KeepsUnless-bind :
      (b : B) (m : Exec S A) (k : A → Exec S B)
      → Keeps f m
      → ((a : A) → KeepsUnless b f (k a))
      → KeepsUnless b f (m >>= k)
  KeepsUnless-bind b m k hm hk = record {
    at = λ s n. (KeepsUnless-continue b (m s).0 k hk).at (m s).1 n ∙ hm.at s;
  }

-- Whether a call has ended, with nothing left to do.
pub is_done_or_not : {A : Type 0} (r : Result (Option A)) → (r ≡ ok none) ⊎ (r ≢ ok none)
is_done_or_not (ok none) = inl refl
is_done_or_not (ok (some a)) = inr (λ e. cc)
is_done_or_not (err e) = inr (λ q. cc)
is_done_or_not panic = inr (λ q. cc)

pub ruleset keeps_rules = (
  Keeps-pure, Keeps-fail, Keeps-gets, Keeps-of_result, Keeps-deref, Keeps-wrapping, Keeps-if,
  Keeps-bind,
)
