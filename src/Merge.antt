-- ===== src/Merge.antt =====
-- internal/merge/merge.go: what the merge engine does to one path. `files` are those of the object
-- store, `worktree` all files below the root, `.vara/MERGE_HEAD` among them, by the path from there.
-- The object files and the index are apart from that map. What each call of the operating system does is a parameter.
pub mod Checkout
pub mod Run
pub mod Staged
pub mod Paths
pub mod Settled
pub mod Turns
pub mod Finished
mod Tests
use vara.Base.{
  ℕ, zero, suc, ◌≡◌, Bool, true, false, ◌&&◌, Option, none, some, List, [], ◌∷◌, ◌++◌, ◌==◌,
  if◌then◌else◌, Bytes, bytes_eq, lookup, insert, erase, Error, Result, ok, err, failure,
}
use vara.Hash.{BaseId}
use vara.Object.{Object, blob, TreeEntry}
use vara.Object.Store.{Files, Calls, Codec, read, write}
use vara.Index.{Entry, state_added, state_modified}
use vara.Diff.Trees.{
  FileMap, ChangeType, added, deleted, modified, zero_object, FileDiff, path_of, tree_entries,
}

-- `fileChange`.
pub record FileChange : Type 0 where
  pub change_type : ChangeType
  pub blob_id : BaseId

abbrev pub change_of : FileDiff → FileChange
change_of d = record { change_type = d.change_type; blob_id = d.new_blob }

-- The loop that fills `ourChanges`, and that for `theirChanges`.
unfoldable pub changes_of : List FileDiff → List (Bytes × FileChange) → List (Bytes × FileChange)
changes_of [] changes = changes
changes_of (d ∷ ds) changes = changes_of ds (insert (path_of d) (change_of d) changes)

pub record Repo : Type 0 where
  pub files : Files
  pub worktree : Files
  pub index : List Entry

-- What one `os.WriteFile` does: all of it, nothing (the file cannot be opened), or a part.
pub data WriteOutcome : Type 0 where
  complete unopened : WriteOutcome
  torn : Bytes → WriteOutcome

-- For a path, whether `MkdirAll` and `Remove` succeed, what `WriteFile` does, and the calls of the
-- object store.
pub record OsCalls : Type 0 where
  pub mkdir : Bytes → Bool
  pub write_file : Bytes → WriteOutcome
  pub remove : Bytes → Bool
  pub store : Bytes → Calls

unfoldable pub update_index : List Entry → Bytes → BaseId → List Entry
update_index [] path blob_id =
    record { fingerprint = 0; object_id = blob_id; state = state_added; path = path } ∷ []
update_index (e ∷ es) path blob_id =
    let rest = update_index es path blob_id in
    if bytes_eq e.path path
    then record e { object_id = blob_id; state = state_modified } ∷ es
    else e ∷ rest

unfoldable pub remove_from_index : List Entry → Bytes → List Entry
remove_from_index [] path = []
remove_from_index (e ∷ es) path =
    let rest = remove_from_index es path in if bytes_eq e.path path then rest else e ∷ rest

abbrev pub blob_data : Result Object → Option Bytes
blob_data (ok (blob bytes)) = some bytes
blob_data _ = none

abbrev pub or_empty : Option Bytes → Bytes
or_empty none = []
or_empty (some bytes) = bytes

-- The cases of the `switch`.
pub data PathCase : Type 0 where
  apply : FileChange → PathCase
  content : BaseId → BaseId → PathCase
  structural : PathCase

abbrev pub both_modified : ChangeType → ChangeType → Bool
both_modified modified modified = true
both_modified _ _ = false

-- A path that neither side changed is not met; there Go sees two zero values.
abbrev pub decide : Option FileChange → Option FileChange → PathCase
decide none none = apply (record { change_type = added; blob_id = zero_object })
decide (some oc) none = apply oc
decide none (some tc) = apply tc
decide (some oc) (some tc) =
    if bytes_eq oc.blob_id tc.blob_id
    then apply oc
    else if both_modified oc.change_type tc.change_type
    then content oc.blob_id tc.blob_id
    else structural

-- `os.WriteFile`.
unfoldable pub write_bytes : WriteOutcome → Bytes → Bytes → Repo → Repo × Option Error
write_bytes complete path bytes repo =
    (record repo { worktree = insert path bytes repo.worktree }, none)
write_bytes unopened path bytes repo = (repo, some failure)
write_bytes (torn left) path bytes repo =
    (record repo { worktree = insert path left repo.worktree }, some failure)

abbrev pub write_worktree : OsCalls → Bytes → Bytes → Repo → Repo × Option Error
write_worktree calls path bytes repo = write_bytes (calls.write_file path) path bytes repo

-- `WriteFile`, and what follows it where it succeeds.
abbrev pub written : {A : Type 0} → (Error → A) → (Repo → Repo × A) → Repo × Option Error → Repo × A
written failed rest (repo, some x) = (repo, failed x)
written failed rest (repo, none) = rest repo

-- The loop of `collectTreeFiles`, where `collect_sub` is the recursive call, whose error is dropped.
unfoldable pub collect_tree_entries :
    (BaseId → Bytes → FileMap → Option (FileMap × Option Error))
    → Bytes
    → List TreeEntry
    → FileMap
    → Option (FileMap × Option Error)
collect_tree_entries collect_sub prefix [] out = some (out, none)
collect_tree_entries collect_sub prefix (e ∷ es) out =
    let path = prefix ++ e.name in
    elim (e.mode == 0x4000) [
      | true ↦ elim (collect_sub e.hash (path ++ b'/' ∷ []) out) [
        | none ↦ none
        | some (out', _) ↦ collect_tree_entries collect_sub prefix es out'
      ]
      | false ↦ collect_tree_entries collect_sub prefix es (insert path e.hash out)
    ]

abbrev pub or_zero : Option BaseId → BaseId
or_zero none = zero_object
or_zero (some id) = id

module _ (read_object : BaseId → Result Object) where
  -- `readBlobData`.
  abbrev pub read_blob_data : BaseId → Bytes
  read_blob_data id = if bytes_eq id zero_object then [] else or_empty (blob_data (read_object id))

  unfoldable pub collect_tree_files : ℕ → BaseId → Bytes → FileMap → Option (FileMap × Option Error)
  collect_tree_files zero id prefix out = none
  collect_tree_files (suc fuel) id prefix out = elim (tree_entries (read_object id)) [
    | err x ↦ some (out, some x)
    | ok entries ↦ collect_tree_entries (collect_tree_files fuel) prefix entries out
  ]

  -- `findBlobInTree`, whose caller drops the error and goes on with the zero identifier.
  unfoldable pub find_blob_in_tree : ℕ → BaseId → Bytes → Option BaseId
  find_blob_in_tree fuel tree_id path = elim (collect_tree_files fuel tree_id [] []) [
    | none ↦ none
    | some (_, some _) ↦ some zero_object
    | some (files, none) ↦ some (or_zero (lookup path files))
  ]

abbrev pub stage : Bytes → BaseId → Repo → Repo
stage path id repo = record repo { index = update_index repo.index path id }

-- The end of `mergeFileContent`, from the error of `Write` on.
abbrev pub stage_stored : Bytes → Bool → Repo → Files × BaseId × Option Error → Repo × Result Bool
stage_stored path has_conflict repo (files, id, some x) = (record repo { files = files }, err x)
stage_stored path has_conflict repo (files, id, none) =
    (stage path id (record repo { files = files }), ok has_conflict)

-- The first branch of `applyChange`.
unfoldable pub apply_deleted : OsCalls → Bytes → Repo → Repo
apply_deleted calls path repo = record repo {
  worktree = if calls.remove path then erase path repo.worktree else repo.worktree;
  index = remove_from_index repo.index path;
}

module _ (codec : Codec) (calls : OsCalls) where
  -- The end of `applyChange`, for a file that is added or modified.
  unfoldable pub write_change : Bytes → BaseId → Repo → Repo × Option Error
  write_change path id repo =
      let bytes = read_blob_data (read codec repo.files) id in
      if calls.mkdir path
      then written (λ x. some x) (λ r. (stage path id r, none))
          (write_worktree calls path bytes repo)
      else (repo, some failure)

  -- `applyChange`; an error of `os.Remove` is dropped.
  unfoldable pub apply_as : Bytes → ChangeType → BaseId → Repo → Repo × Option Error
  apply_as path deleted id repo = (apply_deleted calls path repo, none)
  apply_as path added id repo = write_change path id repo
  apply_as path modified id repo = write_change path id repo

  abbrev pub apply_change : Bytes → FileChange → Repo → Repo × Option Error
  apply_change path fc repo = apply_as path fc.change_type fc.blob_id repo

  -- `mergeFileContent`, from `MkdirAll` on.
  unfoldable pub store_merged : Bytes → Bytes → Bool → Repo → Repo × Result Bool
  store_merged path merged has_conflict repo =
      if calls.mkdir path
      then written err
          (λ r.
            stage_stored path has_conflict r (write codec (calls.store path) (blob merged) r.files))
          (write_worktree calls path merged repo)
      else (repo, err failure)
