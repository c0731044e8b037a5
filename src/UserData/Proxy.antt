-- ===== src/UserData/Proxy.antt =====
-- `SkipKubeProxy` of pkg/userdata/userdata.go: a flag of the `kubeadm init` command of `runcmd`.
pub mod Flag
pub mod Idempotent
use cluster_api_provider_hcl.Base.{
  Text, text, Bool, true, false, not, ◌||◌, ◌&&◌, Option, none, some, is_some, [], ◌∷◌, ◌++◌,
  str_eq, has_prefix, contains, if◌then◌else◌, ◌==◌,
}
use cluster_api_provider_hcl.Exec.{Error, failure, Exec, pure, fail, modify, ◌>>=◌, ◌>>◌}
use cluster_api_provider_hcl.UserData.{
  Node, Nodes, nil, cons, value, content, with_value, map_content, next_node,
}

abbrev pub is_empty : Text → Bool
is_empty [] = true
is_empty (c ∷ s) = false

-- `strings.TrimRight(s, " ")`
unfoldable pub trim_right : Text → Text
trim_right [] = []
trim_right (c ∷ s) = let rest = trim_right s in if (c == 32) && is_empty rest then [] else c ∷ rest

abbrev pub runcmd_key : Text
runcmd_key = text "runcmd"

abbrev pub kubeadm_init : Text
kubeadm_init = text "kubeadm init"

abbrev pub skip_flag : Text
skip_flag = text "--skip-phases=addon/kube-proxy"

-- The inner loop over `l1.Content`: the last node behind `runcmd`, or the one found before.
unfoldable pub last_value : Text → Nodes → Option Node → Option Node
last_value key nil found = found
last_value key (cons n rest) found =
    last_value key rest
      (if str_eq (value n) key && is_some (next_node rest) then next_node rest else found)

-- The two loops, of the document's content.
unfoldable pub find_runcmd : Nodes → Option Node → Option Node
unfolding last_value
find_runcmd nil found = found
find_runcmd (cons l1 rest) found = find_runcmd rest (last_value runcmd_key (content l1) found)

-- A write to the content of the last node behind the key.
unfoldable pub modify_last : Text → (Nodes → Nodes) → Nodes → Nodes
modify_last key f nil = nil
modify_last key f (cons n nil) = cons n nil
modify_last key f (cons n (cons next rest)) =
    let later = modify_last key f (cons next rest) in
    if str_eq (value n) key && not (is_some (last_value key (cons next rest) none))
    then cons n (cons (map_content f next) rest)
    else cons n later

-- A write to the content of the node that the two loops find.
unfoldable pub modify_runcmd : (Nodes → Nodes) → Nodes → Nodes
unfolding find_runcmd modify_last
modify_runcmd f nil = nil
modify_runcmd f (cons l1 rest) =
    let later = modify_runcmd f rest in
    if is_some (find_runcmd rest none)
    then cons l1 later
    else cons (map_content (modify_last runcmd_key f) l1) rest

-- The body of the loop at the command: it stays if it has the flag.
unfoldable pub add_flag : Text → Text
unfolding contains trim_right
add_flag command =
    if contains command skip_flag then command else trim_right command ++ (32 ∷ skip_flag)

abbrev pub is_init_command : Node → Bool
is_init_command n = has_prefix (value n) kubeadm_init

-- The loop over the commands: only the first `kubeadm init` is looked at.
unfoldable pub flag_commands : Nodes → Nodes
unfolding add_flag
flag_commands nil = nil
flag_commands (cons l1 rest) =
    let later = flag_commands rest in
    if is_init_command l1 then cons (with_value (add_flag (value l1)) l1) rest else cons l1 later

unfoldable pub any_init_command : Nodes → Bool
any_init_command nil = false
any_init_command (cons l1 rest) = is_init_command l1 || any_init_command rest

unfoldable pub skip_kube_proxy : Exec Node (Unit {0})
unfolding find_runcmd modify_runcmd flag_commands any_init_command
skip_kube_proxy document = elim (find_runcmd (content document) none) [
  | none ↦ fail (failure (text "runcmd variable not found")) document
  | some n ↦ elim (any_init_command (content n)) [
    | true ↦ modify (map_content (modify_runcmd flag_commands)) document
    | false ↦ fail (failure (text "kubeadm init command not found")) document
  ]
]
