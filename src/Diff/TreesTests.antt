-- ===== src/Diff/TreesTests.antt =====
-- pkg/diff/diff.go: `DiffTrees` on two small trees.
use vara.Base.{
  ◌≡◌, ◌↔◌, refl, some, List, [], ◌∷◌, codes, if◌then◌else◌, bytes_eq, lookup, insert, Bytes,
  Result, ok, err, object_not_found,
}
use vara.Hash.{BaseId}
use vara.Object.{Object, TreeEntry, tree}
use vara.Diff.Trees.{
  FileMap, FileDiff, added, modified, zero_object, files_of, collect_files, collect_entries,
  diff_trees, old_diffs, new_diffs,
}
use vara.Diff.Collected.{IsFilesOf}
use vara.Diff.Compared.{In, diff_at, diff_trees_correct}

abbrev old_tree : BaseId
old_tree = 1 ∷ []

abbrev new_tree : BaseId
new_tree = 2 ∷ []

abbrev sub_tree : BaseId
sub_tree = 3 ∷ []

abbrev file : Bytes → BaseId → TreeEntry
file name id = record { mode = 0x81A4; hash = id; name = name }

-- The new tree changes `a` and adds `d/b`.
abbrev trees : BaseId → Result Object
trees id =
    if bytes_eq id old_tree
    then ok (tree (file (codes "a") (10 ∷ []) ∷ []))
    else if bytes_eq id new_tree
    then ok (
        tree (
          file (codes "a") (11 ∷ [])
          ∷ record { mode = 0x4000; hash = sub_tree; name = codes "d" }
          ∷ []))
    else if bytes_eq id sub_tree
    then ok (tree (file (codes "b") (12 ∷ []) ∷ []))
    else err object_not_found

abbrev changes : List FileDiff
changes =
    record {
      change_type = modified;
      old_path = codes "a";
      new_path = codes "a";
      old_blob = 10 ∷ [];
      new_blob = 11 ∷ [];
    }
    ∷ record {
      change_type = added;
      old_path = [];
      new_path = codes "d/b";
      old_blob = zero_object;
      new_blob = 12 ∷ [];
    }
    ∷ []

compared : diff_trees trees (λ ds. ds) 2 old_tree new_tree ≡ some (ok changes)
unfolding diff_trees files_of collect_files collect_entries old_diffs new_diffs lookup insert
    bytes_eq
compared = refl

diff_trees_correct_example :
    (old new : FileMap) × IsFilesOf trees old_tree old
    × IsFilesOf trees new_tree new
    × ((d : FileDiff)
        → In d changes ↔ ((p : Bytes) × (diff_at p (lookup p old) (lookup p new) ≡ some d)))
diff_trees_correct_example =
    diff_trees_correct trees (λ ds. ds) 2 old_tree new_tree changes (λ d ds. (λ m. m, λ m. m))
      compared
