-- ===== src/Packer/Builds.antt =====
-- The entries of the builds, and the processes that they stand for.
use cluster_api_provider_hcl.Base.{
  Text, ℕ, suc, ◌-◌, true, false, Option, none, some, List, [], ◌∷◌, Dict, lookup, put, erase,
  lookup-put, lookup-erase, str_eq, str_eq_iff, if◌then◌else◌, ◌≡◌, inl, inr, refl, sym, ap, ◌∙◌,
  Bool-cases,
}
use cluster_api_provider_hcl.Exec.{Error}
use cluster_api_provider_hcl.Packer.{
  Build, PackerCall, Packer, list_images, start_refused, started, ended, end_build,
}

-- The processes of a hash that have started and not ended.
abbrev pub running : Text → List PackerCall → ℕ
running h [] = 0
running h (started k ∷ t) = let r = running h t in if str_eq k h then suc r else r
running h (ended k ∷ t) = let r = running h t in if str_eq k h then r - 1 else r
running h (list_images k ∷ t) = running h t
running h (start_refused k ∷ t) = running h t

-- The processes that the entry of a hash stands for.
unfoldable pub count : Option Build → ℕ
count none = 0
count (some b) = if b.terminated then 0 else 1

abbrev pub Consistent : Packer → Type 0
Consistent s = (h : Text) → running h s.trace ≡ count (lookup h s.builds)

count-put :
    (h k : Text) (b : Build) (m : Dict Build)
    → count (lookup k (put h b m)) ≡ (if str_eq h k then count (some b) else count (lookup k m))
count-put h k b m = elim (Bool-cases (str_eq h k)) [
  | inl same ↦ rw same (ap count (lookup-put h k b m ∙ (rw same)))
  | inr other ↦ rw other (ap count (lookup-put h k b m ∙ (rw other)))
]

count-erase :
    (h k : Text) (m : Dict Build)
    → count (lookup k (erase h m)) ≡ (if str_eq h k then 0 else count (lookup k m))
count-erase h k m = elim (Bool-cases (str_eq h k)) [
  | inl same ↦
      let gone : lookup k (erase h m) ≡ none = lookup-erase h k m ∙ rw same in
      rw same (ap count gone ∙ (unfold count in refl))
  | inr other ↦ rw other (ap count (lookup-erase h k m ∙ (rw other)))
]

-- What runs for a hash, under an equal text.
running_same :
    (h k : Text) (t : List PackerCall) (n : ℕ)
    → str_eq h k ≡ true
    → running h t ≡ n
    → running k t ≡ n
running_same h k t n same e =
    let q = (str_eq_iff h k).0 same in ap (λ (x : Text). running x t) (sym q) ∙ e

pub erase_keeps :
    (h : Text) (b : Build) (s : Packer)
    → lookup h s.builds ≡ some b
    → b.terminated ≡ true
    → Consistent s
    → Consistent (record s { builds = erase h s.builds })
erase_keeps h b s e t c k = elim (Bool-cases (str_eq h k)) [
  | inl same ↦
      running_same h k s.trace 0 same (c h ∙ rw e (unfold count in rw t))
      ∙ sym (count-erase h k s.builds ∙ rw same)
  | inr other ↦ c k ∙ sym (count-erase h k s.builds ∙ rw other)
]

abbrev pub fresh : Build
fresh = record { terminated = false; result = none }

module _ (h : Text) (s : Packer) (c : Consistent s) where
  pub started_keeps :
      lookup h s.builds ≡ none
      → Consistent (record { builds = put h fresh s.builds; trace = started h ∷ s.trace })
  started_keeps absent k = elim (Bool-cases (str_eq h k)) [
    | inl same ↦
        let idle = running_same h k s.trace 0 same (c h ∙ rw absent (unfold count in refl)) in
        rw same (ap suc idle ∙ sym (count-put h k fresh s.builds ∙ rw same (unfold count in refl)))
    | inr other ↦ rw other (c k ∙ sym (count-put h k fresh s.builds ∙ rw other))
  ]

  pub ended_keeps :
      (b : Build) (result : Option Error)
      → lookup h s.builds ≡ some b
      → b.terminated ≡ false
      → Consistent (end_build h result s)
  unfolding end_build
  ended_keeps b result e runs k = elim (Bool-cases (str_eq h k)) [
    | inl same ↦
        let busy = running_same h k s.trace 1 same (c h ∙ rw e (unfold count in rw runs)) in
        rw same (
          ap (λ (n : ℕ). n - 1) busy
          ∙ sym (
              count-put h k (record { terminated = true; result = result }) s.builds
              ∙ rw same (unfold count in refl)))
    | inr other ↦ rw other (
        c k
        ∙ sym (count-put h k (record { terminated = true; result = result }) s.builds ∙ rw other))
  ]
