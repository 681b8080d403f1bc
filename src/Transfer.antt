-- ===== src/Transfer.antt =====
-- pkg/transfer/enumerate.go: the objects that one repository sends to another. The object store is
-- the parameter `read`; a set is the list of its members. Loops and recursion run on fuel, and
-- `none` says that it ran out. What is marked stays marked when an error ends a walk.
pub mod Pack
pub mod Walk
pub mod Trees
pub mod TreesSound
pub mod Steps
pub mod Sound
pub mod Complete
pub mod Returns
mod Tests
use vara.Base.{
  ℕ, zero, suc, ◌+◌, ◌≡◌, ◌⊎◌, Bool, true, false, not, ◌&&◌, ◌||◌, Option, none, some, List, [],
  ◌∷◌, ◌++◌, ◌==◌, if◌then◌else◌, Bytes, Member, contains, Error, Result, ok, err, failure,
}
use vara.Hash.{BaseId}
use vara.Object.{Object, blob, tree, commit, Commit, TreeEntry}

-- An error where there is one, and what the walk has marked.
abbrev pub Marked : Type 0
Marked = List BaseId × Option Error

abbrev pub mode_subtree : ℕ
mode_subtree = 0x4000

-- `set[p] = true`.
abbrev pub mark : List BaseId → BaseId → List BaseId
mark set p = if contains set p then set else p ∷ set

abbrev pub as_commit : Result Object → Option Commit
as_commit (ok (commit c)) = some c
as_commit _ = none

abbrev pub as_entries : Result Object → Option (List TreeEntry)
as_entries (ok (tree es)) = some es
as_entries _ = none

-- The loop over the parents, with the queue and `seen`.
unfoldable pub push_parents :
    List BaseId → List BaseId → List BaseId → List BaseId → List BaseId × List BaseId
push_parents stop [] queue seen = (queue, seen)
push_parents stop (p ∷ ps) queue seen = elim (contains stop p || contains seen p) [
  | true ↦ push_parents stop ps queue seen
  | false ↦ push_parents stop ps (queue ++ p ∷ []) (p ∷ seen)
]

-- The loop over the entries of a tree, where `add_subtree` is the recursive call.
unfoldable pub add_entries :
    (BaseId → List BaseId → Option Marked)
    → List BaseId
    → List TreeEntry
    → List BaseId
    → Option Marked
add_entries add_subtree exclude [] objs = some (objs, none)
add_entries add_subtree exclude (e ∷ es) objs =
    let other =
      add_entries add_subtree exclude es
        (if contains exclude e.hash then objs else mark objs e.hash) in
    if e.mode == mode_subtree
    then elim (add_subtree e.hash objs) [
      | none ↦ none
      | some (objs', some x) ↦ some (objs', some x)
      | some (objs', none) ↦ add_entries add_subtree exclude es objs'
    ]
    else other

-- The entries of a tree that hold `id`.
abbrev pub Holds : List TreeEntry → BaseId → Type 0
Holds [] id = ⊥
Holds (e ∷ es) id = (id ≡ e.hash) ⊎ Holds es id

module _ (read : BaseId → Result Object) where
  -- `store.Read` and the assertion that it is a commit; both errors are wrapped by `fmt.Errorf`.
  unfoldable pub commit_at : BaseId → Option Commit
  commit_at id = as_commit (read id)

  unfoldable pub tree_at : BaseId → Option (List TreeEntry)
  tree_at id = as_entries (read id)

  -- The loop of `walkCommits` over its queue.
  unfoldable pub walk_queue : ℕ → List BaseId → List BaseId → List BaseId → Option Marked
  walk_queue fuel stop [] seen = some (seen, none)
  walk_queue zero stop (cur ∷ queue) seen = none
  walk_queue (suc fuel) stop (cur ∷ queue) seen = elim (commit_at cur) [
    | none ↦ some (seen, some failure)
    | some c ↦
        let (queue', seen') = push_parents stop c.parents queue seen in
        walk_queue fuel stop queue' seen'
  ]

  unfoldable pub walk_commits : ℕ → List BaseId → BaseId → List BaseId → Option Marked
  walk_commits fuel stop start seen =
      if contains stop start || contains seen start
      then some (seen, none)
      else walk_queue fuel stop (start ∷ []) (start ∷ seen)

  -- `addTreeClosureExcluding`; `addTreeClosure` is the call with nothing to exclude. The fuel bounds
  -- the depth.
  unfoldable pub add_tree : ℕ → List BaseId → BaseId → List BaseId → Option Marked
  add_tree zero exclude id objs = none
  add_tree (suc fuel) exclude id objs =
      if contains exclude id || contains objs id then some (objs, none) else elim (tree_at id) [
        | none ↦ some (id ∷ objs, some failure)
        | some entries ↦ add_entries (add_tree fuel exclude) exclude entries (id ∷ objs)
      ]

  -- The marks of the trees of a commit that is had, whose errors are dropped.
  unfoldable pub add_have_tree : ℕ → BaseId → List BaseId → Option (List BaseId)
  add_have_tree fuel h have_objs = elim (commit_at h) [
    | none ↦ some have_objs
    | some c ↦ elim (add_tree fuel [] c.tree_hash have_objs) [
      | none ↦ none
      | some (objs, _) ↦ some objs
    ]
  ]

  -- Step 1: the boundary and the objects that the receiver has.
  unfoldable pub add_haves :
      ℕ → List BaseId → List BaseId → List BaseId → Option (List BaseId × List BaseId)
  add_haves fuel [] boundary have_objs = some (boundary, have_objs)
  add_haves fuel (h ∷ hs) boundary have_objs = elim (walk_commits fuel [] h boundary) [
    | none ↦ none
    | some (boundary', some _) ↦ add_haves fuel hs boundary' have_objs
    | some (boundary', none) ↦ elim (add_have_tree fuel h have_objs) [
      | none ↦ none
      | some have_objs' ↦ add_haves fuel hs boundary' have_objs'
    ]
  ]

  -- Step 2.
  unfoldable pub add_wants :
      ℕ → List BaseId → List BaseId → List BaseId → Option (Result (List BaseId))
  add_wants fuel boundary [] send = some (ok send)
  add_wants fuel boundary (w ∷ ws) send = elim (walk_commits fuel boundary w send) [
    | none ↦ none
    | some (send', some x) ↦ some (err x)
    | some (send', none) ↦ add_wants fuel boundary ws send'
  ]

  -- Step 3, over the commits to send in the order of the list.
  unfoldable pub add_commits :
      ℕ → List BaseId → List BaseId → List BaseId → Option (Result (List BaseId))
  add_commits fuel have_objs [] objs = some (ok objs)
  add_commits fuel have_objs (c ∷ cs) objs = elim (commit_at c) [
    | none ↦ some (err failure)
    | some k ↦ elim (add_tree fuel have_objs k.tree_hash (mark objs c)) [
      | none ↦ none
      | some (objs', some x) ↦ some (err x)
      | some (objs', none) ↦ add_commits fuel have_objs cs objs'
    ]
  ]

  -- `Enumerate`, whose `sort.Slice` is the parameter `sort`; `order` is the order in which Go ranges
  -- over the commits to send.
  unfoldable pub enumerate :
      (List BaseId → List BaseId)
      → (List BaseId → List BaseId)
      → ℕ
      → List BaseId
      → List BaseId
      → Option (Result (List BaseId))
  enumerate sort order fuel wants haves = elim (add_haves fuel haves [] []) [
    | none ↦ none
    | some (boundary, have_objs) ↦ elim (add_wants fuel boundary wants []) [
      | none ↦ none
      | some (err x) ↦ some (err x)
      | some (ok send) ↦ elim (add_commits fuel have_objs (order send) []) [
        | none ↦ none
        | some (err x) ↦ some (err x)
        | some (ok objs) ↦ some (ok (sort objs))
      ]
    ]
  ]

  -- What the roots refer to, over commits, their parents, their trees and the entries of these.
  pub data Reach (roots : List BaseId) : BaseId → Type 0 where
    root : {r : BaseId} → Member r roots → Reach roots r
    parent_of :
        {u p : BaseId} {c : Commit}
        → Reach roots u
        → commit_at u ≡ some c
        → Member p c.parents
        → Reach roots p
    tree_of :
        {u : BaseId} {c : Commit} → Reach roots u → commit_at u ≡ some c → Reach roots c.tree_hash
    entry_of :
        {t x : BaseId} {es : List TreeEntry}
        → Reach roots t
        → tree_at t ≡ some es
        → Holds es x
        → Reach roots x
