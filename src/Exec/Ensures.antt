-- ===== src/Exec/Ensures.antt =====
-- What holds whenever a call ends with a value: one rule for each way to build a call.
use cluster_api_provider_hcl.Base.{Text, ◌≡◌, ◌≢◌, Bool, true, false, refl, ◌∙◌, if◌then◌else◌}
use cluster_api_provider_hcl.Exec.{
  Error, Result, ok, err, panic, Exec, pure, fail, continue, handle, wrap_result, wrapping,
  then_result, ◌>>=◌,
}

-- If `m` ends with the value `b`, the state that it leaves satisfies `P`.
pub record Ensures {ℓ} {S B : Type ℓ} (b : B) (P : S → Type ℓ) (m : Exec S B) : Type ℓ where
  pub at : (s : S) → (m s).0 ≡ ok b → P (m s).1

module _ {ℓ} {S B : Type ℓ} {b : B} {P : S → Type ℓ} where
  pub Ensures-fail : (e : Error) → Ensures b P (fail e)
  Ensures-fail e = record { at = λ s h. cc }

  -- A call that ends with another value.
  pub Ensures-other : (c : B) → (c ≢ b) → Ensures b P (pure c)
  Ensures-other c n = record { at = λ s h. absurd (n (cc)) }

  pub Ensures-if :
      (t : Bool) (m n : Exec S B)
      → (t ≡ true → Ensures b P m)
      → (t ≡ false → Ensures b P n)
      → Ensures b P (if t then m else n)
  Ensures-if true m n k l = k refl
  Ensures-if false m n k l = l refl

module _ {ℓ} {S A B : Type ℓ} {b : B} {P : S → Type ℓ} where
  Ensures-continue :
      (r : Result A) (f : A → Exec S B) → ((a : A) → Ensures b P (f a)) → Ensures b P (continue r f)
  Ensures-continue (ok a) f k = k a
  Ensures-continue (err e) f k = record { at = λ s h. cc }
  Ensures-continue panic f k = record { at = λ s h. cc }

  pub Ensures-bind :
      (m : Exec S A) (f : A → Exec S B) → ((a : A) → Ensures b P (f a)) → Ensures b P (m >>= f)
  Ensures-bind m f k = record { at = λ s h. (Ensures-continue (m s).0 f k).at (m s).1 h }

module _ {ℓ} {S A B : Type ℓ} where
  -- A sequence that ends with a value: its first call ended with one too.
  pub bind-ok :
      (m : Exec S A) (f : A → Exec S B) (s : S) (c : B)
      → ((m >>= f) s).0 ≡ ok c
      → (a : A) × ((m s).0 ≡ ok a) × ((f a (m s).1).0 ≡ ok c) × (((m >>= f) s).1 ≡ (f a (m s).1).1)
  bind-ok m f s c h = go (m s).0 refl h
    where
      go :
          (r : Result A)
          → (m s).0 ≡ r
          → (continue r f (m s).1).0 ≡ ok c
          → (a : A) × ((m s).0 ≡ ok a)
            × ((f a (m s).1).0 ≡ ok c)
            × (((m >>= f) s).1 ≡ (f a (m s).1).1)
      go (ok a) q k = (a, q, k, rw q)
      go (err e) q k = absurd (cc)
      go panic q k = absurd (cc)

module _ {ℓ} {S A : Type ℓ} where
  pub wrapping-ok :
      (t : Text) (m : Exec S A) (s : S) (a : A) → (wrapping t m s).0 ≡ ok a → (m s).0 ≡ ok a
  wrapping-ok t m s a h = go (m s).0 refl h
    where
      go : (r : Result A) → (m s).0 ≡ r → wrap_result t r ≡ ok a → (m s).0 ≡ ok a
      go (ok b) q k = q ∙ k
      go (err e) q k = absurd (cc)
      go panic q k = absurd (cc)

-- A sequence of results that ends with a value.
pub then_result-ok {ℓ} :
    {A B : Type ℓ} (m : Result A) (f : A → Result B) (b : B)
    → then_result m f ≡ ok b
    → (a : A) × (m ≡ ok a) × (f a ≡ ok b)
then_result-ok (ok a) f b h = (a, refl, h)
then_result-ok (err e) f b h = absurd (cc)
then_result-ok panic f b h = absurd (cc)

-- What holds after the handling of the end of a call, if it holds after each branch.
pub handle_after :
    {S A B : Type 0} (P : S → Type 0) (m : Exec S A) (k : A → Exec S B) (e : Error → Exec S B)
    (s : S)
    → ((a : A) → (m s).0 ≡ ok a → P (k a (m s).1).1)
    → ((x : Error) → P (e x (m s).1).1)
    → P (m s).1
    → P (handle m k e s).1
handle_after {A = A} P m k e s f g h = go (m s).0 refl
  where
    go : (r : Result A) → (m s).0 ≡ r → P (handle m k e s).1
    go (ok a) q = rw (q, handle) (f a q)
    go (err x) q = rw (q, handle) (g x)
    go panic q = rw (q, handle) h
