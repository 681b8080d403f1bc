-- ===== src/Tree.antt =====
-- pkg/tree/node.go: the tree of directories that a commit makes of the staging area.
pub mod Built
pub mod Indexed
mod Tests
use vara.Base.{
  ℕ, Bool, true, false, Option, none, some, List, [], ◌∷◌, ◌==◌, if◌then◌else◌, Bytes, bytes_eq,
}
use vara.Hash.{BaseId}
use vara.Index.{Entry, state_deleted}

-- `Node`, whose children are a map: a blob has none, not even an empty one.
mutual
  pub data Node : Type 0 where
    blob_node : BaseId → ℕ → Node
    tree_node : Children → Node

  pub data Children : Type 0 where
    no_children : Children
    child : Bytes → Node → Children → Children

-- `current.Children[part]`, read and written.
unfoldable pub child_at : Bytes → Children → Option Node
child_at name no_children = none
child_at name (child n node cs) =
    let rest = child_at name cs in if bytes_eq n name then some node else rest

unfoldable pub set_child : Bytes → Node → Children → Children
set_child name node no_children = child name node no_children
set_child name node (child n old cs) =
    let rest = set_child name node cs in
    if bytes_eq n name then child n node cs else child n old rest

-- The part that a byte begins, where the rest is split into `parts`.
abbrev pub add_byte : ℕ → List Bytes → List Bytes
add_byte b [] = (b ∷ []) ∷ []
add_byte b (part ∷ parts) = (b ∷ part) ∷ parts

-- `strings.Split(path, "/")`.
unfoldable pub split_path : Bytes → List Bytes
split_path [] = [] ∷ []
split_path (b ∷ rest) =
    let parts = split_path rest in if b == b'/' then [] ∷ parts else add_byte b parts

-- The children below a part, made where there is none; a blob has no map to write to.
abbrev pub children_below : Option Node → Option Children
children_below none = some no_children
children_below (some (tree_node cs)) = some cs
children_below (some (blob_node id mode)) = none

abbrev pub default_mode : ℕ
default_mode = 0x81a4

abbrev pub set_below : Bytes → Children → Option Children → Option Children
set_below part cs none = none
set_below part cs (some sub) = some (set_child part (tree_node sub) cs)

-- The loop over the parts of a path; `none` is the panic of a write to a nil map.
unfoldable pub add_path : List Bytes → BaseId → Children → Option Children
add_path [] id cs = some cs
add_path (part ∷ []) id cs = some (set_child part (blob_node id default_mode) cs)
add_path (part ∷ next ∷ parts) id cs = elim (children_below (child_at part cs)) [
  | none ↦ none
  | some sub ↦ set_below part cs (add_path (next ∷ parts) id sub)
]

-- The loop of `BuildFromIndex`.
unfoldable pub add_index : List Entry → Children → Option Children
add_index [] cs = some cs
add_index (e ∷ es) cs = elim (e.state == state_deleted) [
  | true ↦ add_index es cs
  | false ↦ elim (add_path (split_path e.path) e.object_id cs) [
    | none ↦ none
    | some cs' ↦ add_index es cs'
  ]
]

abbrev pub build_from_index : List Entry → Option Children
build_from_index es = add_index es no_children
