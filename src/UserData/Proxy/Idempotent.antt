-- ===== src/UserData/Proxy/Idempotent.antt =====
-- `SkipKubeProxy` a second time.
use cluster_api_provider_hcl.Base.{
  Text, Bool, true, false, not, ◌&&◌, Option, none, some, is_some, str_eq, if◌then◌else◌, ◌≡◌, refl,
  ap, ◌∙◌, arith, Bool-cases, inl, inr,
}
use cluster_api_provider_hcl.Exec.{ok}
use cluster_api_provider_hcl.UserData.{
  Node, node, Nodes, nil, cons, value, content, map_content, next_node,
}
use cluster_api_provider_hcl.UserData.Pointers.{map_node, value-map_content, content-map_content}
use cluster_api_provider_hcl.UserData.Proxy.{
  runcmd_key, last_value, find_runcmd, modify_last, modify_runcmd, flag_commands, any_init_command,
  skip_kube_proxy,
}
use cluster_api_provider_hcl.UserData.Proxy.Flag.{
  flag_commands-again, any_init_command-flag_commands,
}

abbrev or_else : Option Node → Option Node → Option Node
or_else none found = found
or_else (some n) found = some n

-- What was found before counts only where nothing is found later.
last_value_lem :
    (key : Text) (ns : Nodes) (found : Option Node)
    → last_value key ns found ≡ or_else (last_value key ns none) found
unfolding last_value
last_value_lem key nil found = refl
last_value_lem key (cons n nil) found = ground arith
last_value_lem key (cons n (cons next rest)) found = elim (Bool-cases (str_eq (value n) key)) [
  | inl here ↦ ground (arith, last_value_lem key (cons next rest) (some next))
  | inr later ↦ ground (arith, last_value_lem key (cons next rest) found)
]

find_runcmd_lem :
    (ns : Nodes) (found : Option Node) → find_runcmd ns found ≡ or_else (find_runcmd ns none) found
unfolding find_runcmd
find_runcmd_lem nil found = refl
find_runcmd_lem (cons l1 rest) found = ground (
  arith,
  last_value_lem runcmd_key (content l1) found,
  find_runcmd_lem rest (last_value runcmd_key (content l1) found),
  find_runcmd_lem rest (last_value runcmd_key (content l1) none),
)

last_value-cons :
    (key : Text) (n : Node) (ns : Nodes)
    → last_value key (cons n ns) none
      ≡ or_else
          (last_value key ns none)
          (if str_eq (value n) key && is_some (next_node ns) then next_node ns else none)
unfolding last_value
last_value-cons key n ns =
    last_value_lem key ns
      (if str_eq (value n) key && is_some (next_node ns) then next_node ns else none)

last_value-map_content :
    (key : Text) (f : Nodes → Nodes) (n : Node) (ns : Nodes)
    → last_value key (cons (map_content f n) ns) none ≡ last_value key (cons n ns) none
unfolding last_value
last_value-map_content key f n ns = rw (value-map_content f n)

next_node-modify_last :
    (key : Text) (f : Nodes → Nodes) (n : Node) (ns : Nodes)
    → next_node (modify_last key f (cons n ns)) ≡ some n
unfolding modify_last
next_node-modify_last key f n nil = refl
next_node-modify_last key f n (cons next rest) = ground arith

-- After a write the last node is the node as it was written.
last_value-modify_last :
    (key : Text) (f : Nodes → Nodes) (ns : Nodes)
    → last_value key (modify_last key f ns) none ≡ map_node f (last_value key ns none)
unfolding modify_last
last_value-modify_last key f nil = unfold last_value in refl
last_value-modify_last key f (cons n nil) = unfold last_value in ground arith
last_value-modify_last key f (cons n (cons next rest)) = ground (
  arith,
  last_value-cons key n (cons next rest),
  last_value-cons key n (modify_last key f (cons next rest)),
  last_value-cons key n (cons (map_content f next) rest),
  last_value-map_content key f next rest,
  next_node-modify_last key f next rest,
  last_value-modify_last key f (cons next rest),
)

abbrev map_head : (Nodes → Nodes) → Nodes → Nodes
map_head f nil = nil
map_head f (cons n ns) = cons (map_content f n) ns

modify_last-cons :
    (key : Text) (f : Nodes → Nodes) (n : Node) (ns : Nodes)
    → modify_last key f (cons n ns) ≡ (
        if (str_eq (value n) key && is_some (next_node ns))
          && not (is_some (last_value key ns none))
        then cons n (map_head f ns)
        else cons n (modify_last key f ns))
unfolding modify_last
modify_last-cons key f n nil = ground arith
modify_last-cons key f n (cons next rest) = ground arith

find_runcmd-cons :
    (l1 : Node) (ns : Nodes)
    → find_runcmd (cons l1 ns) none
      ≡ or_else (find_runcmd ns none) (last_value runcmd_key (content l1) none)
unfolding find_runcmd
find_runcmd-cons l1 ns = find_runcmd_lem ns (last_value runcmd_key (content l1) none)

find_runcmd-modify_runcmd :
    (f : Nodes → Nodes) (ns : Nodes)
    → find_runcmd (modify_runcmd f ns) none ≡ map_node f (find_runcmd ns none)
unfolding modify_runcmd
find_runcmd-modify_runcmd f nil = unfold find_runcmd in refl
find_runcmd-modify_runcmd f (cons l1 rest) = ground (
  arith,
  find_runcmd-cons l1 rest,
  find_runcmd-cons l1 (modify_runcmd f rest),
  find_runcmd-cons (map_content (modify_last runcmd_key f) l1) rest,
  content-map_content (modify_last runcmd_key f) l1,
  last_value-modify_last runcmd_key f (content l1),
  find_runcmd-modify_runcmd f rest,
)

module _ (f : Nodes → Nodes) (again : (ns : Nodes) → f (f ns) ≡ f ns) where
  map_content-again : (n : Node) → map_content f (map_content f n) ≡ map_content f n
  map_content-again (node t v c) = ap (node t v) (again c)

  modify_last-again :
      (key : Text) (ns : Nodes) → modify_last key f (modify_last key f ns) ≡ modify_last key f ns
  modify_last-again key nil = unfold modify_last in refl
  modify_last-again key (cons n nil) = unfold modify_last in refl
  modify_last-again key (cons n (cons next rest)) = ground (
    arith,
    modify_last-cons key f n (cons next rest),
    modify_last-cons key f n (cons (map_content f next) rest),
    modify_last-cons key f n (modify_last key f (cons next rest)),
    next_node-modify_last key f next rest,
    last_value-map_content key f next rest,
    last_value-modify_last key f (cons next rest),
    map_content-again next,
    modify_last-again key (cons next rest),
  )

  modify_runcmd-again : (ns : Nodes) → modify_runcmd f (modify_runcmd f ns) ≡ modify_runcmd f ns
  unfolding modify_runcmd
  modify_runcmd-again nil = refl
  modify_runcmd-again (cons (node t v c) rest) = ground (
    arith,
    find_runcmd-modify_runcmd f rest,
    modify_last-again runcmd_key c,
    modify_runcmd-again rest,
  )

-- `SkipKubeProxy` where it finds a command.
flagged :
    (document n : Node)
    → find_runcmd (content document) none ≡ some n
    → any_init_command (content n) ≡ true
    → skip_kube_proxy document ≡ (ok tt, map_content (modify_runcmd flag_commands) document)
unfolding skip_kube_proxy
flagged document n q b = rw (q, skip_kube_proxy) (rw (b, skip_kube_proxy))

-- `SkipKubeProxy` on the document that it leaves ends as it did, and changes nothing more.
pub skip_kube_proxy-again :
    (document : Node) → skip_kube_proxy (skip_kube_proxy document).1 ≡ skip_kube_proxy document
unfolding skip_kube_proxy
skip_kube_proxy-again (node t v c) = go (find_runcmd c none) refl
  where
    again :
        modify_runcmd flag_commands (modify_runcmd flag_commands c) ≡ modify_runcmd flag_commands c
    again = modify_runcmd-again flag_commands flag_commands-again c

    found :
        (n : Node)
        → find_runcmd c none ≡ some n
        → (b : Bool) → any_init_command (content n) ≡ b
        → skip_kube_proxy (skip_kube_proxy (node t v c)).1 ≡ skip_kube_proxy (node t v c)
    found n q true b =
        let later : find_runcmd (modify_runcmd flag_commands c) none
            ≡ some (map_content flag_commands n) =
          find_runcmd-modify_runcmd flag_commands c ∙ ap (map_node flag_commands) q in
        let still : any_init_command (content (map_content flag_commands n)) ≡ true =
          ap any_init_command (content-map_content flag_commands n)
          ∙ any_init_command-flag_commands (content n)
          ∙ b in
        let first : skip_kube_proxy (node t v c)
            ≡ (ok tt, node t v (modify_runcmd flag_commands c)) =
          flagged (node t v c) n q b in
        rw first (
          flagged (node t v (modify_runcmd flag_commands c)) (map_content flag_commands n) later
            still
          ∙ rw again)
    found n q false b = ground arith

    go :
        (o : Option Node)
        → find_runcmd c none ≡ o
        → skip_kube_proxy (skip_kube_proxy (node t v c)).1 ≡ skip_kube_proxy (node t v c)
    go none q = ground arith
    go (some n) q = found n q (any_init_command (content n)) refl
