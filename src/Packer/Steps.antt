-- ===== src/Packer/Steps.antt =====
-- Calls of `EnsureImage` and ends of builds in any order, and how many builds run at a time.
use cluster_api_provider_hcl.Base.{
  Text, text, ◌++◌, ◌≤◌, true, false, Option, none, some, List, [], ◌∷◌, lookup, put, erase,
  lookup-erase, str_eq_refl, ◌≡◌, ◌⊎◌, inl, inr, refl, sym, ap, ◌∙◌, Bool-cases, Option-cases,
  arith,
}
use cluster_api_provider_hcl.Api.Tags.{name_hcloud_provider_prefix}
use cluster_api_provider_hcl.Exec.{Error, Reply, success, refusal}
use cluster_api_provider_hcl.Packer.{
  Image, Build, Packer, PackerEnv, list_images, start_refused, started, latest, start, query, hash,
  ensure_hash, ensure_image, PackerParameters, end_build,
}
use cluster_api_provider_hcl.Packer.Builds.{
  running, count, Consistent, erase_keeps, fresh, started_keeps, ended_keeps,
}

-- One thing that happens: a call, or the end of a build whose process runs.
pub data Step (env : PackerEnv) : Packer → Packer → Type 0 where
  ensured : (p : PackerParameters) (s : Packer) → Step env s (ensure_image env p s).1
  finished :
      (h : Text) (b : Build) (result : Option Error) (s : Packer)
      → lookup h s.builds ≡ some b
      → b.terminated ≡ false
      → Step env s (end_build h result s)

-- The states that steps reach from the new packer.
pub data Reachable (env : PackerEnv) : Packer → Type 0 where
  initial : Reachable env (record { builds = []; trace = [] })
  step : {s s' : Packer} → Reachable env s → Step env s s' → Reachable env s'

abbrev selector : Text → Text
selector h = name_hcloud_provider_prefix ++ (text "template-hash" ++ (text "==" ++ h))

abbrev queried : Text → Packer → Packer
queried h s = record s { trace = list_images (selector h) ∷ s.trace }

abbrev erased : Text → Packer → Packer
erased h s = record s { builds = erase h s.builds }

module _ (env : PackerEnv) (h : Text) (s : Packer) where
  start_failed :
      (e : Error)
      → env.start_build s.trace h ≡ refusal e
      → (start env h s).1 ≡ record s { trace = start_refused h ∷ s.trace }
  unfolding start
  start_failed e q = rw (q, start)

  start_worked :
      env.start_build s.trace h ≡ success tt
      → (start env h s).1 ≡ record { builds = put h fresh s.builds; trace = started h ∷ s.trace }
  unfolding start
  start_worked q = rw (q, start)

  query_failed :
      (e : Error)
      → env.list_images s.trace (selector h) ≡ refusal e
      → (query env h s).1 ≡ queried h s
  unfolding query
  query_failed e q = rw (q, query)

  query_hit :
      (images : List Image) (i : Image)
      → env.list_images s.trace (selector h) ≡ success images
      → latest images none ≡ some i
      → (query env h s).1 ≡ queried h s
  unfolding query
  query_hit images i q e = rw (q, query) (rw e)

  query_missed :
      (images : List Image)
      → env.list_images s.trace (selector h) ≡ success images
      → latest images none ≡ none
      → (query env h s).1 ≡ (start env h (queried h s)).1
  unfolding query
  query_missed images q e = rw (q, query) (rw e)

  ensure_absent : lookup h s.builds ≡ none → (ensure_hash env h s).1 ≡ (query env h s).1
  unfolding ensure_hash
  ensure_absent q = rw (q, ensure_hash)

  ensure_running :
      (b : Build) → lookup h s.builds ≡ some b → b.terminated ≡ false → (ensure_hash env h s).1 ≡ s
  unfolding ensure_hash
  ensure_running b q t = rw (q, ensure_hash) (rw t)

  ensure_built :
      (b : Build)
      → lookup h s.builds ≡ some b
      → b.terminated ≡ true
      → ((ensure_hash env h s).1 ≡ erased h s)
        ⊎ ((ensure_hash env h s).1 ≡ (query env h (erased h s)).1)
  unfolding ensure_hash
  ensure_built b q t = elim (Option-cases b.result) [
    | inl fine ↦ inr (rw (q, ensure_hash) (rw t (rw fine)))
    | inr (e, failed) ↦ inl (rw (q, ensure_hash) (rw t (rw failed)))
  ]

Consistent-of : (s t : Packer) → s ≡ t → Consistent t → Consistent s
Consistent-of s t e c k =
    ap (λ (x : Packer). running k x.trace) e
    ∙ (c k ∙ ap (λ (x : Packer). count (lookup k x.builds)) (sym e))

module _ (env : PackerEnv) (h : Text) where
  start_keeps :
      (s : Packer) → lookup h s.builds ≡ none → Consistent s → Consistent (start env h s).1
  start_keeps s absent c = go (env.start_build s.trace h) refl
    where
      go : (r : Reply (Unit {0})) → env.start_build s.trace h ≡ r → Consistent (start env h s).1
      go (refusal e) q = Consistent-of _ _ (start_failed env h s e q) c
      go (success u) q = Consistent-of _ _ (start_worked env h s q) (started_keeps h s c absent)

  query_keeps :
      (s : Packer) → lookup h s.builds ≡ none → Consistent s → Consistent (query env h s).1
  query_keeps s absent c = go (env.list_images s.trace (selector h)) refl
    where
      found :
          (images : List Image) (o : Option Image)
          → env.list_images s.trace (selector h) ≡ success images
          → latest images none ≡ o
          → Consistent (query env h s).1
      found images none q e =
          Consistent-of _ _ (query_missed env h s images q e) (start_keeps (queried h s) absent c)
      found images (some i) q e = Consistent-of _ _ (query_hit env h s images i q e) c

      go :
          (r : Reply (List Image))
          → env.list_images s.trace (selector h) ≡ r
          → Consistent (query env h s).1
      go (refusal e) q = Consistent-of _ _ (query_failed env h s e q) c
      go (success images) q = found images (latest images none) q refl

  absent_after : (s : Packer) → lookup h (erase h s.builds) ≡ none
  absent_after s = lookup-erase h h s.builds ∙ rw (str_eq_refl h)

  ensure_keeps : (s : Packer) → Consistent s → Consistent (ensure_hash env h s).1
  ensure_keeps s c = elim (Option-cases (lookup h s.builds)) [
    | inl absent ↦ Consistent-of _ _ (ensure_absent env h s absent) (query_keeps s absent c)
    | inr (b, e) ↦ elim (Bool-cases b.terminated) [
      | inr runs ↦ Consistent-of _ _ (ensure_running env h s b e runs) c
      | inl over ↦
          let kept = erase_keeps h b s e over c in
          elim (ensure_built env h s b e over) [
            | inl q ↦ Consistent-of _ _ q kept
            | inr q ↦ Consistent-of _ _ q (query_keeps (erased h s) (absent_after s) kept)
          ]
    ]
  ]

step_keeps : (env : PackerEnv) (s t : Packer) → Step env s t → Consistent s → Consistent t
step_keeps env s t (ensured p s0) c = unfold ensure_image in ensure_keeps env (hash env p) s0 c
step_keeps env s t (finished h b result s0 e runs) c = ended_keeps h s0 c b result e runs

Reachable-Consistent : (env : PackerEnv) (s : Packer) → Reachable env s → Consistent s
Reachable-Consistent env s initial = λ k. unfold lookup count in refl
Reachable-Consistent env s (step {s = s0} {s' = s1} r x) =
    step_keeps env s0 s1 x (Reachable-Consistent env s0 r)

count_le : (o : Option Build) → count o ≤ 1
unfolding count
count_le none = omega arith
count_le (some b) = ground arith

-- Whatever calls and ends of builds come in whatever order, at most one process runs for a hash.
pub one_build_runs :
    (env : PackerEnv) (s : Packer) → Reachable env s → (h : Text) → running h s.trace ≤ 1
one_build_runs env s r h =
    omega (arith, Reachable-Consistent env s r h, count_le (lookup h s.builds))
