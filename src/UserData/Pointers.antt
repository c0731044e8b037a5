-- ===== src/UserData/Pointers.antt =====
-- Finding a node by the key before it, and writing through the pointer that was found.
use cluster_api_provider_hcl.Base.{
  Text, false, Option, none, some, str_eq, ◌≡◌, refl, arith, Bool-cases, Option-cases, inl, inr,
}
use cluster_api_provider_hcl.UserData.{
  Node, node, Nodes, nil, cons, value, content, map_content, value_of, modify_value,
  get_write_files, modify_write_files, write_files_key, has_path, find_file, modify_file,
}

abbrev pub map_node : (Nodes → Nodes) → Option Node → Option Node
map_node f none = none
map_node f (some n) = some (map_content f n)

-- The text behind a key.
unfoldable pub value_text : Text → Nodes → Option Text
unfolding value_of
value_text key ns = elim (value_of key ns) [ none ↦ none | some n ↦ some (value n) ]

pub value-map_content : (f : Nodes → Nodes) (n : Node) → value (map_content f n) ≡ value n
value-map_content f (node t v c) = refl

pub content-map_content : (f : Nodes → Nodes) (n : Node) → content (map_content f n) ≡ f (content n)
content-map_content f (node t v c) = refl

value_of-modify_value :
    (key : Text) (f : Nodes → Nodes) (ns : Nodes)
    → value_of key (modify_value key f ns) ≡ map_node f (value_of key ns)
unfolding value_of modify_value
value_of-modify_value key f nil = refl
value_of-modify_value key f (cons n nil) = ground arith
value_of-modify_value key f (cons n (cons next rest)) = elim (Bool-cases (str_eq (value n) key)) [
  | inl here ↦ ground arith
  | inr later ↦ ground (arith, value_of-modify_value key f (cons next rest))
]

-- After a write the pointer leads to the node as it was written.
pub get_write_files-modify_write_files :
    (f : Nodes → Nodes) (ns : Nodes)
    → get_write_files (modify_write_files f ns) ≡ map_node f (get_write_files ns)
unfolding get_write_files modify_write_files
get_write_files-modify_write_files f nil = refl
get_write_files-modify_write_files f (cons (node t v c) rest) =
    elim (Option-cases (value_of write_files_key c)) [
      | inl absent ↦ ground (arith, get_write_files-modify_write_files f rest)
      | inr (n, found) ↦ ground (arith, value_of-modify_value write_files_key f c)
    ]

-- A write that keeps what an entry answers to every path.
pub record KeepsPaths (f : Nodes → Nodes) (ns : Nodes) : Type 0 where
  pub same : (path : Text) → has_path path (f ns) ≡ has_path path ns

-- The entry of another path is found as before, if no entry has two paths.
pub find_file-modify_file :
    (path : Text) (f : Nodes → Nodes) (ns : Nodes)
    → ((n : Node) → find_file path ns ≡ some n → KeepsPaths f (content n))
    → find_file path (modify_file path f ns) ≡ map_node f (find_file path ns)
unfolding find_file modify_file
find_file-modify_file path f nil h = refl
find_file-modify_file path f (cons (node t v c) rest) h = elim (Bool-cases (has_path path c)) [
  | inl here ↦ ground (arith, (h (node t v c) (rw here)).same path)
  | inr later ↦ ground (arith, find_file-modify_file path f rest (λ n e. h n (rw later e)))
]

pub find_file-modify_file_other :
    (path other : Text) (f : Nodes → Nodes) (ns : Nodes)
    → ((n : Node) → find_file path ns ≡ some n → KeepsPaths f (content n))
    → ((n : Node) → find_file path ns ≡ some n → has_path other (content n) ≡ false)
    → find_file other (modify_file path f ns) ≡ find_file other ns
unfolding find_file modify_file
find_file-modify_file_other path other f nil h k = refl
find_file-modify_file_other path other f (cons (node t v c) rest) h k =
    elim (Bool-cases (has_path path c)) [
      | inl here ↦ ground (arith, (h (node t v c) (rw here)).same other, k (node t v c) (rw here))
      | inr later ↦ ground (
        arith,
        find_file-modify_file_other path other f rest (λ n e. h n (rw later e))
            (λ n e. k n (rw later e)),
      )
    ]
