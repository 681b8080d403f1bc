-- ===== src/Diff/Trees.antt =====
-- pkg/diff/diff.go: `DiffTrees` and `collectFiles`. The object store is the parameter `read`; a map
-- from a path to a blob is an association list, read in any order.
use vara.Base.{
  ℕ, zero, suc, true, false, Option, none, some, List, [], ◌∷◌, ◌++◌, ◌==◌, if◌then◌else◌, Bytes,
  bytes_eq, lookup, insert, is_empty, Result, ok, err, failure,
}
use vara.Hash.{BaseId}
use vara.Object.{Object, tree, TreeEntry}

abbrev pub FileMap : Type 0
FileMap = List (Bytes × BaseId)

pub data ChangeType : Type 0 where
  added deleted modified : ChangeType

abbrev zero_bytes : ℕ → Bytes
zero_bytes zero = []
zero_bytes (suc n) = 0 ∷ zero_bytes n

-- `types.ObjectID{}`.
abbrev pub zero_object : BaseId
zero_object = zero_bytes 32

pub record FileDiff : Type 0 where
  pub change_type : ChangeType
  pub old_path : Bytes
  pub new_path : Bytes
  pub old_blob : BaseId
  pub new_blob : BaseId

-- `Path`.
abbrev pub path_of : FileDiff → Bytes
path_of d = if is_empty d.new_path then d.old_path else d.new_path

abbrev pub tree_entries : Result Object → Result (List TreeEntry)
tree_entries (ok (tree es)) = ok es
tree_entries (ok _) = err failure
tree_entries (err e) = err e

-- The loop over the entries, where `collect_sub` is the recursive call.
unfoldable pub collect_entries :
    (BaseId → Bytes → FileMap → Option (Result FileMap))
    → Bytes
    → List TreeEntry
    → FileMap
    → Option (Result FileMap)
collect_entries collect_sub prefix [] out = some (ok out)
collect_entries collect_sub prefix (e ∷ es) out =
    let path = prefix ++ e.name in
    elim (e.mode == 0x4000) [
      | true ↦ elim (collect_sub e.hash (path ++ b'/' ∷ []) out) [
        | none ↦ none
        | some (err x) ↦ some (err x)
        | some (ok out') ↦ collect_entries collect_sub prefix es out'
      ]
      | false ↦ collect_entries collect_sub prefix es (insert path e.hash out)
    ]

-- The two loops of `DiffTrees`.
abbrev pub old_diff : Bytes → BaseId → Option BaseId → List FileDiff → List FileDiff
old_diff path old none rest =
    record {
      change_type = deleted;
      old_path = path;
      new_path = [];
      old_blob = old;
      new_blob = zero_object;
    }
    ∷ rest
old_diff path old (some new) rest =
    if bytes_eq old new
    then rest
    else record {
      change_type = modified;
      old_path = path;
      new_path = path;
      old_blob = old;
      new_blob = new;
    }
      ∷ rest

unfoldable pub old_diffs : FileMap → FileMap → List FileDiff → List FileDiff
old_diffs new_files [] diffs = diffs
old_diffs new_files ((path, old) ∷ files) diffs =
    old_diff path old (lookup path new_files) (old_diffs new_files files diffs)

abbrev pub new_diff : Bytes → BaseId → Option BaseId → List FileDiff → List FileDiff
new_diff path new (some _) rest = rest
new_diff path new none rest =
    record {
      change_type = added;
      old_path = [];
      new_path = path;
      old_blob = zero_object;
      new_blob = new;
    }
    ∷ rest

unfoldable pub new_diffs : FileMap → FileMap → List FileDiff
new_diffs old_files [] = []
new_diffs old_files ((path, new) ∷ files) =
    new_diff path new (lookup path old_files) (new_diffs old_files files)

module _ (read : BaseId → Result Object) where
  -- `collectFiles`; the fuel bounds the depth.
  unfoldable pub collect_files : ℕ → BaseId → Bytes → FileMap → Option (Result FileMap)
  collect_files zero id prefix out = none
  collect_files (suc fuel) id prefix out = elim (tree_entries (read id)) [
    | err x ↦ some (err x)
    | ok entries ↦ collect_entries (collect_files fuel) prefix entries out
  ]

  -- The files of a tree, none for the zero identifier.
  unfoldable pub files_of : ℕ → BaseId → Option (Result FileMap)
  files_of fuel id = if bytes_eq id zero_object then some (ok []) else collect_files fuel id [] []

  -- `DiffTrees`, whose `sort.Slice` is the parameter `sort`.
  unfoldable pub diff_trees :
      (List FileDiff → List FileDiff) → ℕ → BaseId → BaseId → Option (Result (List FileDiff))
  diff_trees sort fuel old_tree new_tree = elim (files_of fuel old_tree) [
    | none ↦ none
    | some (err x) ↦ some (err x)
    | some (ok old_files) ↦ elim (files_of fuel new_tree) [
      | none ↦ none
      | some (err x) ↦ some (err x)
      | some (ok new_files) ↦
          some (ok (sort (old_diffs new_files old_files (new_diffs old_files new_files))))
    ]
  ]
