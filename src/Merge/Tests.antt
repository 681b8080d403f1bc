-- ===== src/Merge/Tests.antt =====
-- internal/merge: a merge of a change with a deletion, and the theorems at it.
use vara.Base.{
  ◌⊎◌, ◌≡◌, ◌↔◌, refl, true, false, Option, none, some, List, [], ◌∷◌, Bytes, codes, inl, inr,
  insert, erase, lookup, bytes_eq, bytes_eq_iff, contains, Result, ok, err, failure, u32_bytes,
  u64_bytes, read_u32, read_u64, Member,
}
use vara.Hash.{BaseId, to_string, hex_digit}
use vara.Object.{
  Object, blob, tree, commit, serialize, entries_bytes, ids_bytes, deserialize, known_type,
  read_header, read_until_nul, deserialize_tree, deserialize_commit, read_entries, read_entry,
  read_ids, read_id,
}
use vara.Object.Store.{Files, object_path, read, checked}
use vara.Object.Store.Sample.{fill, checksum, all_bytes, sum_codec, sum_codec-IsCodec}
use vara.Fsutil.{WriteCalls, write_file, rename_file, rename_from}
use vara.Graph.{
  merge_base, read_commit, collect_ancestors, find_base, with_ancestors, expand, visit_all, visit,
}
use vara.Diff.Trees.{
  added, deleted, modified, zero_object, diff_trees, files_of, collect_files, collect_entries,
  old_diffs, new_diffs,
}
use vara.Merge.{
  FileChange, Repo, OsCalls, complete, changes_of, apply_as, write_change, write_bytes,
  update_index,
}
use vara.Merge.Run.{
  merge_head, Output, Inputs, merge, merge_with, three_way, commit_trees, merge_diffs, add_paths,
  merge_paths, merge_as, conclude, suspend,
}
use vara.Merge.Finished.{their_line, is_suspended, lists_conflicts, merge_recorded}
use vara.Merge.Paths.{SameAt}
use vara.Merge.Turns.{NoDup, Turn, merge_paths_settled}

abbrev id_of : Object → BaseId
id_of o = sum_codec.hash (serialize o)

abbrev tree_with : List Object → Object
tree_with [] = tree []
tree_with (o ∷ os) = tree (record { mode = 0x81A4; hash = id_of o; name = codes "a.txt" } ∷ [])

abbrev commit_of : Object → List Object → Object
commit_of t ps = commit (record {
  tree_hash = id_of t;
  parents = ids ps;
  author = codes "ann";
  message = codes "m";
  timestamp = 1;
})
  where
    ids : List Object → List BaseId
    ids [] = []
    ids (o ∷ os) = id_of o ∷ ids os

-- `a.txt` is changed by us and deleted by them.
abbrev base_tree : Object
base_tree = tree_with (blob (codes "a") ∷ [])

abbrev our_tree : Object
our_tree = tree_with (blob (codes "b") ∷ [])

abbrev their_tree : Object
their_tree = tree_with []

abbrev base_commit : Object
base_commit = commit_of base_tree []

abbrev our_commit : Object
our_commit = commit_of our_tree (base_commit ∷ [])

abbrev their_commit : Object
their_commit = commit_of their_tree (base_commit ∷ [])

put_all : List Object → Files
put_all [] = []
put_all (o ∷ os) = insert (object_path (id_of o)) (serialize o) (put_all os)

abbrev start : Repo
start = record {
  files =
      put_all (base_tree ∷ our_tree ∷ their_tree ∷ base_commit ∷ our_commit ∷ their_commit ∷ []);
  worktree = (codes "a.txt", codes "b") ∷ [];
  index = [];
}

abbrev inputs : Inputs
inputs = record {
  our_commit = id_of our_commit;
  their_commit = id_of their_commit;
  our_label = codes "HEAD";
  their_label = codes "topic";
}

abbrev os_calls : OsCalls
os_calls = record {
  mkdir = λ _. true;
  write_file = λ _. complete;
  remove = λ _. true;
  store = λ _. record { mkdir = true; stat = true; torn = none; rename = true };
}

abbrev write_calls : WriteCalls
write_calls = record {
  open_ = true;
  write = none;
  sync = none;
  close = none;
  rename = λ _. true;
  left_over = none;
}

abbrev or_start : Option (Repo × Result Output) → Repo × Result Output
or_start none = (start, err failure)
or_start (some done) = done

abbrev finished : Repo × Result Output
finished = or_start (merge sum_codec os_calls 9 inputs (λ ds. ds) (λ ps. ps) write_calls start)

ids_differ : bytes_eq (id_of our_commit) (id_of their_commit) ≡ false
unfolding fill checksum serialize entries_bytes ids_bytes u32_bytes u64_bytes bytes_eq
ids_differ = refl

suspended_run : is_suspended finished.1 ≡ true
unfolding fill checksum serialize entries_bytes ids_bytes u32_bytes u64_bytes bytes_eq merge put_all
    all_bytes object_path insert lookup read checked deserialize read_header known_type
    read_until_nul deserialize_tree deserialize_commit read_entries read_entry read_ids read_id
    read_u32 read_u64 to_string hex_digit merge_base read_commit collect_ancestors find_base
    with_ancestors expand visit_all visit contains diff_trees files_of collect_files collect_entries
    old_diffs new_diffs changes_of merge_with three_way commit_trees merge_diffs add_paths
    merge_paths merge_as conclude suspend write_file rename_file rename_from erase
suspended_run = refl

ran :
    (o : Option (Repo × Result Output)) → is_suspended (or_start o).1 ≡ true → o ≡ some (or_start o)
ran none h = cc
ran (some done) h = refl

merge_recorded_example :
    ((is_suspended finished.1 ≡ false)
      ⊎ (lookup merge_head finished.0.worktree ≡ some (their_line sum_codec os_calls 9 inputs)))
    × (lists_conflicts finished.1 ≡ is_suspended finished.1)
merge_recorded_example =
    merge_recorded sum_codec os_calls 9 inputs (λ ds. ds) (λ ps. ps) write_calls start finished.0
      finished.1
      (ran (merge sum_codec os_calls 9 inputs (λ ds. ds) (λ ps. ps) write_calls start)
        suspended_run)

-- Both sides change `a.txt` with no common ground; they add `b.txt`.
abbrev our_changes : List (Bytes × FileChange)
our_changes = (codes "a.txt", record { change_type = modified; blob_id = fill 32 1 }) ∷ []

abbrev their_changes : List (Bytes × FileChange)
their_changes =
    (codes "a.txt", record { change_type = deleted; blob_id = zero_object })
    ∷ (codes "b.txt", record { change_type = added; blob_id = id_of (blob (codes "hi")) })
    ∷ []

abbrev both_paths : List Bytes
both_paths = codes "b.txt" ∷ codes "a.txt" ∷ []

abbrev with_blob : Repo
with_blob = record start { files = put_all (blob (codes "hi") ∷ []) }

abbrev merged : Repo
merged = record with_blob {
  worktree = (codes "a.txt", codes "b") ∷ (codes "b.txt", codes "hi") ∷ [];
  index =
      record {
        fingerprint = 0;
        object_id = id_of (blob (codes "hi"));
        state = 1;
        path = codes "b.txt";
      }
      ∷ [];
}

loop_run :
    merge_paths sum_codec os_calls 9 inputs [] our_changes their_changes both_paths with_blob []
    ≡ some (merged, ok (codes "a.txt" ∷ []))
unfolding fill checksum serialize bytes_eq put_all all_bytes object_path insert lookup read checked
    deserialize read_header known_type read_until_nul to_string hex_digit merge_paths merge_as
    apply_as write_change write_bytes update_index
loop_run = refl

both_paths-NoDup : NoDup both_paths
unfolding bytes_eq
both_paths-NoDup = (
  λ m. elim m [ inl e ↦ cc ((bytes_eq_iff (codes "b.txt") (codes "a.txt")).1 e) | inr n ↦ n ],
  (λ m. m, tt),
)

merge_paths_settled_example :
    (¬ Member (codes "b.txt") both_paths
      → SameAt (codes "b.txt") with_blob merged × (Member (codes "b.txt") (codes "a.txt" ∷ []) ↔ ⊥))
    × (Member (codes "b.txt") both_paths
        → Turn sum_codec os_calls 9 inputs [] our_changes their_changes sum_codec-IsCodec
            (λ p. refl)
            with_blob
            merged
            []
            (codes "a.txt" ∷ [])
            (codes "b.txt"))
merge_paths_settled_example =
    merge_paths_settled sum_codec os_calls 9 inputs [] our_changes their_changes sum_codec-IsCodec
      (λ p. refl) both_paths with_blob merged (codes "a.txt" ∷ []) (codes "b.txt") both_paths-NoDup
      loop_run
