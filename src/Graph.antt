-- ===== src/Graph.antt =====
-- pkg/graph/graph.go: the walker, the merge base and the generation numbers. The object store is
-- the parameter `read`, which `Object.Store.read` fills. A loop over a queue runs on fuel, and
-- `none` says that the fuel ran out.
pub mod Queue
pub mod Collect
pub mod MergeBase
mod Tests
use vara.Base.{
  ℕ, zero, suc, ◌+◌, ◌≡◌, Bool, true, false, Option, none, some, List, [], ◌∷◌, ◌++◌, ltb,
  if◌then◌else◌, bytes_eq, Member, contains, lookup, insert, Bytes, Result, ok, err, failure,
  ref_not_found, ◌>>=◌,
}
use vara.Hash.{BaseId}
use vara.Object.{Object, blob, tree, commit, Commit}

-- `obj.(*object.Commit)`, with the error of the failed assertion.
abbrev pub as_commit : Object → Result Commit
as_commit (blob _) = err failure
as_commit (tree _) = err failure
as_commit (commit c) = ok c

-- `queue` and `visited`: the identifiers that are still to be read, and those that were queued.
pub record Frontier : Type 0 where
  pub queue : List BaseId
  pub visited : List BaseId

unfoldable pub visit : BaseId → Frontier → Frontier
visit p s =
    if contains s.visited p
    then s
    else record { queue = s.queue ++ p ∷ []; visited = p ∷ s.visited }

-- The loop over `commit.Parents`, and over the tips in `NewWalker`.
unfoldable pub visit_all : List BaseId → Frontier → Frontier
visit_all [] s = s
visit_all (p ∷ ps) s = visit_all ps (visit p s)

unfoldable pub new_walker : List BaseId → Frontier
new_walker tips = visit_all tips (record { queue = []; visited = [] })

-- `queue := []types.CommitID{start}`, with the flag of `start` set.
abbrev pub start_at : BaseId → Frontier
start_at start = record { queue = start ∷ []; visited = start ∷ [] }

module _ (read : BaseId → Result Object) where
  unfoldable pub read_commit : BaseId → Result Commit
  read_commit id = do obj ← read id; as_commit obj

  -- One dequeued commit: its parents are queued.
  unfoldable pub expand : Commit → List BaseId → List BaseId → Frontier
  expand c rest visited = visit_all c.parents (record { queue = rest; visited = visited })

  -- `Walker.Next`: every error is made by `fmt.Errorf` with `%v` or with no cause.
  unfoldable pub next : Frontier → Frontier × Result (Option (Commit × BaseId))
  unfolding read_commit
  next w = elim w.queue [
    | [] ↦ (w, ok none)
    | curr ∷ rest ↦ elim (read_commit curr) [
      | err _ ↦ (record { queue = rest; visited = w.visited }, err failure)
      | ok c ↦ (expand c rest w.visited, ok (some (c, curr)))
    ]
  ]

  unfoldable pub collect_ancestors : ℕ → Frontier → Option (Result (List BaseId))
  collect_ancestors zero s = elim s.queue [ [] ↦ some (ok s.visited) | _ ∷ _ ↦ none ]
  collect_ancestors (suc fuel) s = elim s.queue [
    | [] ↦ some (ok s.visited)
    | curr ∷ rest ↦ elim (read_commit curr) [
      | err e ↦ some (err e)
      | ok c ↦ collect_ancestors fuel (expand c rest s.visited)
    ]
  ]

  -- Step 2 of `MergeBase`: the loop from `b`.
  unfoldable pub find_base : ℕ → List BaseId → Frontier → Option (Result BaseId)
  find_base zero ancestors s = elim s.queue [ [] ↦ some (err ref_not_found) | _ ∷ _ ↦ none ]
  find_base (suc fuel) ancestors s = elim s.queue [
    | [] ↦ some (err ref_not_found)
    | curr ∷ rest ↦ elim (contains ancestors curr) [
      | true ↦ some (ok curr)
      | false ↦ elim (read_commit curr) [
        | err e ↦ some (err e)
        | ok c ↦ find_base fuel ancestors (expand c rest s.visited)
      ]
    ]
  ]

  -- What follows step 1.
  unfoldable pub with_ancestors :
      ℕ → BaseId → Option (Result (List BaseId)) → Option (Result BaseId)
  with_ancestors fuel b none = none
  with_ancestors fuel b (some (err e)) = some (err e)
  with_ancestors fuel b (some (ok ancestors)) = find_base fuel ancestors (start_at b)

  unfoldable pub merge_base : ℕ → BaseId → BaseId → Option (Result BaseId)
  merge_base fuel a b =
      if bytes_eq a b
      then some (ok a)
      else with_ancestors fuel b (collect_ancestors fuel (start_at a))

  -- The loop over the parents in `Generation`: `visit_parent` is the recursive call.
  unfoldable pub max_parent :
      (BaseId → List (Bytes × ℕ) → Option (Result ℕ × List (Bytes × ℕ)))
      → List BaseId
      → ℕ
      → List (Bytes × ℕ)
      → Option (Result ℕ × List (Bytes × ℕ))
  max_parent visit_parent [] acc cache = some (ok acc, cache)
  max_parent visit_parent (p ∷ ps) acc cache = elim (visit_parent p cache) [
    | none ↦ none
    | some (err e, cache') ↦ some (err e, cache')
    | some (ok g, cache') ↦ max_parent visit_parent ps (if ltb acc g then g else acc) cache'
  ]

  -- The end of `Generation`, for a commit that has parents.
  unfoldable pub store_generation :
      BaseId → Option (Result ℕ × List (Bytes × ℕ)) → Option (Result ℕ × List (Bytes × ℕ))
  store_generation id none = none
  store_generation id (some (err e, cache)) = some (err e, cache)
  store_generation id (some (ok m, cache)) = some (ok (m + 1), insert id (m + 1) cache)

  -- `Generation`, with the cache passed along. The fuel bounds the depth of the recursion.
  unfoldable pub generation : ℕ → BaseId → List (Bytes × ℕ) → Option (Result ℕ × List (Bytes × ℕ))
  generation zero id cache = none
  generation (suc fuel) id cache = elim (lookup id cache) [
    | some g ↦ some (ok g, cache)
    | none ↦ elim (read_commit id) [
      | err e ↦ some (err e, cache)
      | ok c ↦ elim c.parents [
        | [] ↦ some (ok 0, insert id 0 cache)
        | p ∷ ps ↦ store_generation id (max_parent (generation fuel) (p ∷ ps) 0 cache)
      ]
    ]
  ]

-- The commits that `start` descends from, itself among them.
pub data Ancestor (read : BaseId → Result Object) (start : BaseId) : BaseId → Type 0 where
  here : Ancestor read start start
  parent :
      {u p : BaseId} {c : Commit}
      → Ancestor read start u
      → read_commit read u ≡ ok c
      → Member p c.parents
      → Ancestor read start p
