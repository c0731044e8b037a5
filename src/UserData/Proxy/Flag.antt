-- ===== src/UserData/Proxy/Flag.antt =====
-- The command after `SkipKubeProxy` has the flag, and starts as before.
use mathlib.Core.List.{append_assoc}
use cluster_api_provider_hcl.Base.{
  Text, text, Bool, true, false, not, [], ◌∷◌, ◌++◌, has_prefix, contains, ◌==◌, ◌≡◌, refl, arith,
  Bool-cases, inl, inr,
}
use cluster_api_provider_hcl.UserData.{node, Nodes, nil, cons}
use cluster_api_provider_hcl.UserData.Proxy.{
  is_empty, trim_right, kubeadm_init, skip_flag, add_flag, flag_commands, any_init_command,
}

has_prefix_refl : (p : Text) → has_prefix p p ≡ true
unfolding has_prefix
has_prefix_refl [] = refl
has_prefix_refl (c ∷ p) = ground (arith, has_prefix_refl p)

contains_refl : (p : Text) → contains p p ≡ true
unfolding contains
contains_refl [] = has_prefix_refl []
contains_refl (c ∷ p) = rw (has_prefix_refl (c ∷ p))

contains-append : (s p : Text) → contains (s ++ p) p ≡ true
unfolding contains
contains-append [] p = contains_refl p
contains-append (c ∷ s) p = ground (arith, contains-append s p)

-- The command has the flag afterwards.
add_flag-contains : (command : Text) → contains (add_flag command) skip_flag ≡ true
unfolding add_flag
add_flag-contains command = elim (Bool-cases (contains command skip_flag)) [
  | inl there ↦ rw there there
  | inr missing ↦ rw missing (
      rw (← append_assoc (trim_right command) (32 ∷ []) skip_flag)
        (contains-append (trim_right command ++ (32 ∷ [])) skip_flag))
]

add_flag-again : (command : Text) → add_flag (add_flag command) ≡ add_flag command
add_flag-again command = go (add_flag command) (add_flag-contains command)
  where
    go : (c : Text) → contains c skip_flag ≡ true → add_flag c ≡ c
    go c h = unfold add_flag in rw h

-- The last character is no space.
abbrev is_trimmed : Text → Bool
is_trimmed [] = false
is_trimmed (c ∷ []) = not (c == 32)
is_trimmed (c ∷ d ∷ s) = is_trimmed (d ∷ s)

trim_right_nonempty :
    (s p : Text) → is_trimmed p ≡ true → has_prefix s p ≡ true → is_empty (trim_right s) ≡ false
unfolding has_prefix trim_right
trim_right_nonempty s [] t h = cc
trim_right_nonempty [] (c ∷ p) t h = cc
trim_right_nonempty (a ∷ s) (c ∷ []) t h = ground arith
trim_right_nonempty (a ∷ s) (c ∷ d ∷ p) t h = ground (arith, trim_right_nonempty s (d ∷ p) t)

-- Such a prefix outlives the trimming.
has_prefix-trim_right :
    (s p more : Text)
    → is_trimmed p ≡ true
    → has_prefix s p ≡ true
    → has_prefix (trim_right s ++ more) p ≡ true
unfolding has_prefix trim_right
has_prefix-trim_right s [] more t h = cc
has_prefix-trim_right [] (c ∷ p) more t h = cc
has_prefix-trim_right (a ∷ s) (c ∷ []) more t h = ground arith
has_prefix-trim_right (a ∷ s) (c ∷ d ∷ p) more t h =
    ground (arith, has_prefix-trim_right s (d ∷ p) more t, trim_right_nonempty s (d ∷ p) t)

kubeadm_init_trimmed : is_trimmed kubeadm_init ≡ true
unfolding text
kubeadm_init_trimmed = refl

add_flag-has_prefix :
    (command : Text)
    → has_prefix command kubeadm_init ≡ true
    → has_prefix (add_flag command) kubeadm_init ≡ true
unfolding add_flag
add_flag-has_prefix command h = elim (Bool-cases (contains command skip_flag)) [
  | inl there ↦ rw there h
  | inr missing ↦
      rw missing
        (has_prefix-trim_right command kubeadm_init (32 ∷ skip_flag) kubeadm_init_trimmed h)
]

-- Flagging the commands twice is flagging them once.
pub flag_commands-again : (ns : Nodes) → flag_commands (flag_commands ns) ≡ flag_commands ns
unfolding flag_commands
flag_commands-again nil = refl
flag_commands-again (cons (node t v c) rest) = elim (Bool-cases (has_prefix v kubeadm_init)) [
  | inl here ↦ rw here (rw (add_flag-has_prefix v here, add_flag-again v))
  | inr later ↦ rw later (rw (later, flag_commands-again rest))
]

pub any_init_command-flag_commands :
    (ns : Nodes) → any_init_command (flag_commands ns) ≡ any_init_command ns
unfolding flag_commands any_init_command
any_init_command-flag_commands nil = refl
any_init_command-flag_commands (cons (node t v c) rest) =
    elim (Bool-cases (has_prefix v kubeadm_init)) [
      | inl here ↦ rw here (rw (add_flag-has_prefix v here))
      | inr later ↦ rw later (rw (later, any_init_command-flag_commands rest))
    ]
