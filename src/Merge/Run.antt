-- ===== src/Merge/Run.antt =====
-- internal/merge/merge.go: `Merge`, `threeWay` and `mergeFileContent`.
use vara.Base.{
  ℕ, Bool, true, false, Option, none, some, List, [], ◌∷◌, ◌++◌, if◌then◌else◌, Bytes, bytes_eq,
  codes, lookup, contains, Error, Result, ok, err, ◌>>=◌,
}
use vara.Hash.{BaseId, to_string}
use vara.Object.Store.{Codec, read}
use vara.Fsutil.{WriteCalls, write_file}
use vara.Graph.{merge_base, read_commit}
use vara.Diff.ThreeWay.{three_way_merge}
use vara.Diff.Trees.{FileDiff, zero_object, diff_trees}
use vara.Merge.Checkout.{checkout_commit}
use vara.Merge.{
  FileChange, changes_of, Repo, OsCalls, PathCase, apply, content, structural, decide,
  read_blob_data, find_blob_in_tree, apply_change, store_merged,
}

-- `Result`.
pub data MergeResult : Type 0 where
  success conflict fast_forward : MergeResult

pub record Output : Type 0 where
  pub result : MergeResult
  pub new_commit_id : BaseId
  pub conflicts : List Bytes

pub record Inputs : Type 0 where
  pub our_commit : BaseId
  pub their_commit : BaseId
  pub our_label : Bytes
  pub their_label : Bytes

-- The keys of both maps, once each; `order` is the order in which Go ranges over them.
unfoldable pub add_paths : List Bytes → List (Bytes × FileChange) → List Bytes
add_paths paths [] = paths
add_paths paths ((p, _) ∷ changes) =
    add_paths (if contains paths p then paths else p ∷ paths) changes

-- The error of a step, or its flag for a conflict.
abbrev pub no_conflict : Repo × Option Error → Repo × Result Bool
no_conflict (repo, none) = (repo, ok false)
no_conflict (repo, some x) = (repo, err x)

-- `if err != nil { return Output{}, err }` before anything is written; `none` says that the fuel of
-- a loop ran out.
abbrev pub and_then :
    {A : Type 0}
    → Repo
    → Option (Result A)
    → (A → Option (Repo × Result Output))
    → Option (Repo × Result Output)
and_then repo none rest = none
and_then repo (some (err x)) rest = some (repo, err x)
and_then repo (some (ok a)) rest = rest a

abbrev pub merge_head : Bytes
merge_head = codes ".vara/MERGE_HEAD"

module _ (codec : Codec) (calls : OsCalls) (fuel : ℕ) (inputs : Inputs) where
  unfoldable pub merge_file_content :
      BaseId → Bytes → BaseId → BaseId → Repo → Option (Repo × Result Bool)
  merge_file_content base_tree path our_blob their_blob repo =
      let read_object = read codec repo.files in
      elim (find_blob_in_tree read_object fuel base_tree path) [
        | none ↦ none
        | some base_blob ↦
            elim (three_way_merge fuel (read_blob_data read_object base_blob)
              (read_blob_data read_object our_blob) (read_blob_data read_object their_blob)
              inputs.our_label inputs.their_label) [
                | none ↦ none
                | some none ↦ none
                | some (some (merged, has_conflict)) ↦
                    some (store_merged codec calls path merged has_conflict repo)
              ]
      ]

  -- The cases of the `switch`.
  unfoldable pub merge_as : BaseId → Bytes → PathCase → Repo → Option (Repo × Result Bool)
  merge_as base_tree path (apply fc) repo =
      some (no_conflict (apply_change codec calls path fc repo))
  merge_as base_tree path (content our_blob their_blob) repo =
      merge_file_content base_tree path our_blob their_blob repo
  merge_as base_tree path structural repo = some (repo, ok true)

  -- The body of the loop over all paths.
  abbrev pub merge_path :
      BaseId → Bytes → Option FileChange → Option FileChange → Repo → Option (Repo × Result Bool)
  merge_path base_tree path oc tc repo = merge_as base_tree path (decide oc tc) repo

  unfoldable pub merge_paths :
      BaseId
      → List (Bytes × FileChange)
      → List (Bytes × FileChange)
      → List Bytes
      → Repo
      → List Bytes
      → Option (Repo × Result (List Bytes))
  merge_paths base_tree ours theirs [] repo conflicts = some (repo, ok conflicts)
  merge_paths base_tree ours theirs (p ∷ ps) repo conflicts =
      elim (merge_path base_tree p (lookup p ours) (lookup p theirs) repo) [
        | none ↦ none
        | some (repo', err x) ↦ some (repo', err x)
        | some (repo', ok true) ↦ merge_paths base_tree ours theirs ps repo' (conflicts ++ p ∷ [])
        | some (repo', ok false) ↦ merge_paths base_tree ours theirs ps repo' conflicts
      ]

  -- The record of a merge with conflicts.
  unfoldable pub suspend : WriteCalls → Repo → List Bytes → Repo × Result Output
  suspend head_calls repo conflicts =
      let line = to_string inputs.their_commit ++ 10 ∷ [] in
      let (files, e) =
        write_file 20 head_calls (merge_head ++ codes ".tmp") merge_head line repo.worktree in
      (
        record repo { worktree = files },
        elim e [
          | some x ↦ err x
          | none ↦
              ok (record { result = conflict; new_commit_id = zero_object; conflicts = conflicts })
        ],
      )

  -- What `threeWay` does once all paths are merged.
  unfoldable pub conclude : WriteCalls → Repo × Result (List Bytes) → Repo × Result Output
  unfolding suspend
  conclude head_calls (repo, err x) = (repo, err x)
  conclude head_calls (repo, ok []) =
      (repo, ok (record { result = success; new_commit_id = zero_object; conflicts = [] }))
  conclude head_calls (repo, ok (p ∷ ps)) = suspend head_calls repo (p ∷ ps)

  abbrev pub concluded :
      WriteCalls → Option (Repo × Result (List Bytes)) → Option (Repo × Result Output)
  concluded head_calls none = none
  concluded head_calls (some merged) = some (conclude head_calls merged)

  -- The trees of the base and of both commits.
  unfoldable pub commit_trees : BaseId → Repo → Result (BaseId × BaseId × BaseId)
  commit_trees base repo =
      let read_object = read codec repo.files in
      do
        base_commit ← read_commit read_object base
        our_commit ← read_commit read_object inputs.our_commit
        their_commit ← read_commit read_object inputs.their_commit
        ok (base_commit.tree_hash, our_commit.tree_hash, their_commit.tree_hash)

  -- `threeWay` from the two lists of changes on.
  unfoldable pub merge_diffs :
      (List Bytes → List Bytes)
      → WriteCalls
      → BaseId
      → List FileDiff
      → List FileDiff
      → Repo
      → Option (Repo × Result Output)
  unfolding add_paths
  merge_diffs order head_calls base_tree diff_ours diff_theirs repo =
      let ours = changes_of diff_ours [] in
      let theirs = changes_of diff_theirs [] in
      let paths = order (add_paths (add_paths [] ours) theirs) in
      concluded head_calls (merge_paths base_tree ours theirs paths repo [])

  -- `threeWay`.
  unfoldable pub three_way :
      (List FileDiff → List FileDiff)
      → (List Bytes → List Bytes)
      → WriteCalls
      → BaseId
      → Repo
      → Option (Repo × Result Output)
  three_way sort order head_calls base repo =
      let read_object = read codec repo.files in
      and_then repo (some (commit_trees base repo)) (λ t.
        and_then repo (diff_trees read_object sort fuel t.0 t.1) (λ diff_ours.
          and_then repo (diff_trees read_object sort fuel t.0 t.2)
            (λ diff_theirs. merge_diffs order head_calls t.0 diff_ours diff_theirs repo)))

  abbrev pub fast_forwarded : Option (Repo × Option Error) → Option (Repo × Result Output)
  fast_forwarded none = none
  fast_forwarded (some (repo, some x)) = some (repo, err x)
  fast_forwarded (some (repo, none)) = some (
    repo,
    ok (record { result = fast_forward; new_commit_id = inputs.their_commit; conflicts = [] }),
  )

  -- `Merge`, from the merge base on.
  unfoldable pub merge_with :
      (List FileDiff → List FileDiff)
      → (List Bytes → List Bytes)
      → WriteCalls
      → BaseId
      → Repo
      → Option (Repo × Result Output)
  merge_with sort order head_calls base repo =
      if bytes_eq base inputs.our_commit
      then fast_forwarded (checkout_commit codec calls fuel inputs.their_commit repo)
      else if bytes_eq base inputs.their_commit
      then some (
        repo,
        ok (record { result = success; new_commit_id = inputs.our_commit; conflicts = [] }),
      )
      else three_way sort order head_calls base repo

  unfoldable pub merge :
      (List FileDiff → List FileDiff)
      → (List Bytes → List Bytes)
      → WriteCalls
      → Repo
      → Option (Repo × Result Output)
  merge sort order head_calls repo =
      and_then repo (merge_base (read codec repo.files) fuel inputs.our_commit inputs.their_commit)
        (λ base. merge_with sort order head_calls base repo)
