-- ===== src/Controllers/Finalizers.antt =====
-- `AddFinalizer` and `RemoveFinalizer` of package `controllerutil`, on the names of an object's
-- finalizers.
use cluster_api_provider_hcl.Base.{
  Text, true, false, not, List, [], ◌∷◌, ◌++◌, mem_text, filter, str_eq, str_eq_iff, if◌then◌else◌,
  ◌≡◌, arith,
}

unfoldable pub add_finalizer : Text → List Text → List Text
add_finalizer f finalizers = if mem_text f finalizers then finalizers else finalizers ++ (f ∷ [])

unfoldable pub remove_finalizer : Text → List Text → List Text
remove_finalizer f finalizers = filter (λ g. not (str_eq g f)) finalizers

pub remove_finalizer-mem : (f : Text) (fs : List Text) → mem_text f (remove_finalizer f fs) ≡ false
unfolding remove_finalizer
remove_finalizer-mem f [] = ground arith
remove_finalizer-mem f (g ∷ fs) = ground (arith, remove_finalizer-mem f fs, str_eq_iff g f)

mem_text-append_one : (f : Text) (fs : List Text) → mem_text f (fs ++ (f ∷ [])) ≡ true
mem_text-append_one f [] = ground (arith, str_eq_iff f f)
mem_text-append_one f (g ∷ fs) = ground (arith, mem_text-append_one f fs)

pub add_finalizer-mem : (f : Text) (fs : List Text) → mem_text f (add_finalizer f fs) ≡ true
unfolding add_finalizer
add_finalizer-mem f fs = ground (arith, mem_text-append_one f fs)
