-- ===== src/Transfer/Tests.antt =====
-- pkg/transfer/enumerate.go: the theorems on a small store, and runs of the functions.
use vara.Base.{
  ◌≡◌, ◌≢◌, ◌↔◌, ◌⊎◌, inl, inr, refl, ap, none, some, List, [], ◌∷◌, arith, if◌then◌else◌, bytes_eq,
  bytes_eq_iff, contains, Member, Result, ok, err, object_not_found, subst,
}
use vara.Hash.{BaseId}
use vara.Object.{Object, blob, tree, commit, Commit, TreeEntry}
use vara.Transfer.{
  commit_at, tree_at, push_parents, walk_queue, walk_commits, add_entries, add_tree, add_have_tree,
  add_haves, add_wants, add_commits, enumerate, Holds, Reach, root, mode_subtree,
}
use vara.Transfer.Trees.{IsHonest, HoldsFile}
use vara.Transfer.Steps.{IsDownward}
use vara.Transfer.Complete.{enumerate_complete}
use vara.Transfer.Sound.{enumerate_sound}
use vara.Transfer.Returns.{AreAll, enumerate_returns}

-- old ← new. The tree of old holds a file, and that of new a directory with the same tree.
abbrev old : BaseId
old = 1 ∷ []

abbrev new : BaseId
new = 2 ∷ []

abbrev old_tree : BaseId
old_tree = 3 ∷ []

abbrev new_tree : BaseId
new_tree = 4 ∷ []

abbrev file : BaseId
file = 5 ∷ []

abbrev old_commit : Commit
old_commit = record { tree_hash = old_tree; parents = []; author = []; message = []; timestamp = 0 }

abbrev new_commit : Commit
new_commit = record {
  tree_hash = new_tree;
  parents = old ∷ [];
  author = [];
  message = [];
  timestamp = 1;
}

abbrev old_entries : List TreeEntry
old_entries = record { mode = 0x81A4; hash = file; name = [] } ∷ []

abbrev new_entries : List TreeEntry
new_entries = record { mode = mode_subtree; hash = old_tree; name = [] } ∷ []

abbrev objects : BaseId → Result Object
objects id =
    if bytes_eq id old
    then ok (commit old_commit)
    else if bytes_eq id new
    then ok (commit new_commit)
    else if bytes_eq id old_tree
    then ok (tree old_entries)
    else if bytes_eq id new_tree
    then ok (tree new_entries)
    else if bytes_eq id file
    then ok (blob [])
    else err object_not_found

abbrev same_order : List BaseId → List BaseId
same_order xs = xs

same_order-Member : (x : BaseId) (xs : List BaseId) → Member x (same_order xs) ↔ Member x xs
same_order-Member x xs = (λ m. m, λ m. m)

-- The receiver has old with its tree, which is not sent again.
sent :
    enumerate objects same_order same_order 6 (new ∷ []) (old ∷ [])
    ≡ some (ok (new_tree ∷ new ∷ []))
unfolding enumerate add_haves add_have_tree add_wants add_commits add_tree add_entries walk_commits
    walk_queue push_parents commit_at tree_at contains bytes_eq
sent = refl

abbrev everything : List BaseId
everything = old ∷ new ∷ old_tree ∷ new_tree ∷ file ∷ []

commit_cases :
    (u : BaseId) (c : Commit)
    → commit_at objects u ≡ some c
    → ((u ≡ old) × (c ≡ old_commit)) ⊎ ((u ≡ new) × (c ≡ new_commit))
unfolding commit_at
commit_cases u c e = ground (arith, bytes_eq_iff u old, bytes_eq_iff u new)

tree_cases :
    (t : BaseId) (es : List TreeEntry)
    → tree_at objects t ≡ some es
    → ((t ≡ old_tree) × (es ≡ old_entries)) ⊎ ((t ≡ new_tree) × (es ≡ new_entries))
unfolding tree_at
tree_cases t es e = ground (arith, bytes_eq_iff t old_tree, bytes_eq_iff t new_tree)

parent_cases :
    (u p : BaseId) (c : Commit)
    → commit_at objects u ≡ some c
    → Member p c.parents
    → (u ≡ new) × (p ≡ old)
parent_cases u p c e m = elim (commit_cases u c e) [
  | inl (at, same) ↦ absurd (subst (λ (d : Commit). Member p d.parents) same m)
  | inr (at, same) ↦ elim (subst (λ (d : Commit). Member p d.parents) same m) [
    | inl q ↦ (at, q)
    | inr q ↦ absurd q
  ]
]

entry_cases :
    (t y : BaseId) (es : List TreeEntry)
    → tree_at objects t ≡ some es
    → Holds es y
    → ((t ≡ old_tree) × (y ≡ file)) ⊎ ((t ≡ new_tree) × (y ≡ old_tree))
entry_cases t y es e h = elim (tree_cases t es e) [
  | inl (at, same) ↦ elim (subst (λ (s : List TreeEntry). Holds s y) same h) [
    | inl q ↦ inl (at, q)
    | inr q ↦ absurd q
  ]
  | inr (at, same) ↦ elim (subst (λ (s : List TreeEntry). Holds s y) same h) [
    | inl q ↦ inr (at, q)
    | inr q ↦ absurd q
  ]
]

file_only : (y : BaseId) → y ≡ file → (tree_at objects y ≡ none) × (commit_at objects y ≡ none)
unfolding tree_at commit_at bytes_eq
file_only y e = rw e (refl, refl)

objects-IsHonest : IsHonest objects []
objects-IsHonest t x es e h = elim (tree_cases t es e) [
  | inl (at, same) ↦ elim (subst (λ (s : List TreeEntry). HoldsFile s x) same h) [
    | inl q ↦ file_only x q.0
    | inr q ↦ absurd q
  ]
  | inr (at, same) ↦ elim (subst (λ (s : List TreeEntry). HoldsFile s x) same h) [
    | inl q ↦ absurd (cc q.1)
    | inr q ↦ absurd q
  ]
]

-- What the receiver has.
abbrev had : List BaseId
had = old ∷ old_tree ∷ file ∷ []

abbrev Has : BaseId → Type 0
Has x = Member x had

new_lacks : (u : BaseId) → Has u → u ≢ new
new_lacks u h at = elim (subst Has at h) [
  | inl e ↦ absurd (cc e)
  | inr (inl e) ↦ absurd (cc e)
  | inr (inr (inl e)) ↦ absurd (cc e)
  | inr (inr (inr q)) ↦ absurd q
]

Has-IsDownward : IsDownward objects Has
Has-IsDownward = record {
  parents = λ u p c _ e m. inl (parent_cases u p c e m).1;
  trees = λ u c h e. elim (commit_cases u c e) [
    | inl (_, same) ↦ inr (inl (ap (λ (d : Commit). d.tree_hash) same))
    | inr (at, same) ↦ absurd (new_lacks u h at)
  ];
  entries = λ t y es h e m. elim (entry_cases t y es e m) [
    | inl (_, same) ↦ inr (inr (inl same))
    | inr (_, same) ↦ inr (inl same)
  ];
}

everything-AreAll : AreAll objects everything
everything-AreAll = record {
  parents = λ u p c e m. inl (parent_cases u p c e m).1;
  trees = λ u c e. elim (commit_cases u c e) [
    | inl (_, same) ↦ inr (inr (inl (ap (λ (d : Commit). d.tree_hash) same)))
    | inr (_, same) ↦ inr (inr (inr (inl (ap (λ (d : Commit). d.tree_hash) same))))
  ];
  entries = λ t y es e m. elim (entry_cases t y es e m) [
    | inl (_, same) ↦ inr (inr (inr (inr (inl same))))
    | inr (_, same) ↦ inr (inr (inl same))
  ];
}

new_tree-Reach : Reach objects (new ∷ []) new
new_tree-Reach = root (inl refl)

enumerate_complete_example : Member new (new_tree ∷ new ∷ []) ⊎ Has new
enumerate_complete_example =
    enumerate_complete objects same_order same_order Has 6 (new ∷ []) (old ∷ [])
      (new_tree ∷ new ∷ []) same_order-Member same_order-Member Has-IsDownward (λ h m. one h m)
      objects-IsHonest sent new new_tree-Reach
  where
    one : (h : BaseId) → Member h (old ∷ []) → Has h
    one h (inl e) = inl e
    one h (inr e) = absurd e

enumerate_sound_example : Reach objects (new ∷ []) new_tree
enumerate_sound_example =
    enumerate_sound objects same_order same_order 6 (new ∷ []) (old ∷ []) (new_tree ∷ new ∷ [])
      same_order-Member same_order-Member sent new_tree (inl refl)

enumerate_returns_example :
    (r : Result (List BaseId)) × (enumerate objects same_order same_order 6 (new ∷ []) (old ∷ [])
      ≡ some r)
enumerate_returns_example =
    enumerate_returns objects everything everything-AreAll same_order same_order 6 (new ∷ [])
      (old ∷ []) (λ w m. inr (inl (elim m [ inl e ↦ e | inr q ↦ absurd q ])))
      (λ h m. inl (elim m [ inl e ↦ e | inr q ↦ absurd q ])) (omega arith)
