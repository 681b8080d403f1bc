-- ===== src/Tree/Tests.antt =====
-- pkg/tree/node.go: two files in a directory, one deleted entry, and a file in place of a directory.
use vara.Base.{◌≡◌, refl, true, none, some, List, [], ◌∷◌, Bytes, bytes_eq, codes}
use vara.Hash.{BaseId}
use vara.Index.{Entry, state_added, state_deleted}
use vara.Tree.{
  Children, tree_node, add_index, add_path, child_at, set_child, split_path, build_from_index,
}
use vara.Tree.Built.{blob_at, inside}
use vara.Tree.Indexed.{none_inside, none_within, staged_at, build_from_index-staged_at}

abbrev staged : Bytes → BaseId → Entry
staged path id = record { fingerprint = 0; object_id = id; state = state_added; path = path }

abbrev removed : Bytes → Entry
removed path = record { fingerprint = 0; object_id = []; state = state_deleted; path = path }

-- The file `d` was removed, and is now a directory.
abbrev entries : List Entry
entries = removed (codes "d") ∷ staged (codes "d/x") (1 ∷ []) ∷ staged (codes "e") (2 ∷ []) ∷ []

entries_none_inside : none_inside entries ≡ true
unfolding none_inside none_within inside split_path bytes_eq
entries_none_inside = refl

-- The file `d` is still staged when `d/x` is: a write to a nil map.
panics : build_from_index (staged (codes "d") (3 ∷ []) ∷ entries) ≡ none
unfolding add_index add_path child_at set_child split_path bytes_eq
panics = refl

build_from_index-staged_at_example :
    (cs : Children) × (build_from_index entries ≡ some cs)
    × ((qs : List Bytes) → blob_at qs (some (tree_node cs)) ≡ staged_at entries qs none)
build_from_index-staged_at_example = build_from_index-staged_at entries entries_none_inside
