-- ===== src/Graph/Tests.antt =====
-- pkg/graph: the theorems on a small history, and runs of the functions.
use vara.Base.{
  ◌≡◌, ◌≢◌, refl, ap, some, List, [], ◌∷◌, arith, if◌then◌else◌, inl, inr, bytes_eq, contains,
  Result, ok, err, ref_not_found, object_not_found, ok-injective, subst, sym, ◌∙◌, Member,
}
use vara.Hash.{BaseId}
use vara.Object.{Object, Commit, commit}
use vara.Graph.{
  start_at, read_commit, visit, visit_all, expand, collect_ancestors, find_base, with_ancestors,
  merge_base, Ancestor, here,
}
use vara.Graph.Queue.{AllIn}
use vara.Graph.Collect.{IsClosed, collect_ancestors_correct, collect_ancestors_returns}
use vara.Graph.MergeBase.{
  merge_base_common, merge_base_none, merge_base_returns, merge_base_first_parent,
}

-- root ← middle ← left, and right, a merge commit whose parents are root and left. apart has no
-- ancestor in common with them.
abbrev root : BaseId
root = 1 ∷ []

abbrev middle : BaseId
middle = 2 ∷ []

abbrev left : BaseId
left = 3 ∷ []

abbrev right : BaseId
right = 4 ∷ []

abbrev apart : BaseId
apart = 5 ∷ []

abbrev with_parents : List BaseId → Commit
with_parents ps = record { tree_hash = []; parents = ps; author = []; message = []; timestamp = 0 }

abbrev history : BaseId → Result Object
history id =
    if bytes_eq id root
    then ok (commit (with_parents []))
    else if bytes_eq id middle
    then ok (commit (with_parents (root ∷ [])))
    else if bytes_eq id left
    then ok (commit (with_parents (middle ∷ [])))
    else if bytes_eq id right
    then ok (commit (with_parents (root ∷ left ∷ [])))
    else if bytes_eq id apart
    then ok (commit (with_parents []))
    else err object_not_found

abbrev everything : List BaseId
everything = root ∷ middle ∷ left ∷ right ∷ apart ∷ []

abbrev left_ancestors : List BaseId
left_ancestors = root ∷ middle ∷ left ∷ []

collect_left : collect_ancestors history 6 (start_at left) ≡ some (ok left_ancestors)
unfolding collect_ancestors read_commit expand visit_all visit contains bytes_eq
collect_left = refl

inside_of :
    {u : BaseId} {c : Commit} (k : BaseId) (d : Commit)
    → u ≡ k
    → read_commit history k ≡ ok d
    → read_commit history u ≡ ok c
    → AllIn everything d.parents
    → AllIn everything c.parents
inside_of k d e at_k at_u h =
    subst (λ (x : Commit). AllIn everything x.parents)
      (ok-injective (sym at_k ∙ ap (read_commit history) (sym e) ∙ at_u)) h

in_root : Member root everything
in_root = inl refl

in_left : Member left everything
in_left = inr (inr (inl refl))

history-IsClosed : IsClosed history everything
unfolding read_commit bytes_eq
history-IsClosed u c (inl e) r = inside_of root (with_parents []) e refl r tt
history-IsClosed u c (inr (inl e)) r =
    inside_of middle (with_parents (root ∷ [])) e refl r (in_root, tt)
history-IsClosed u c (inr (inr (inl e))) r =
    inside_of left (with_parents (middle ∷ [])) e refl r (inr (inl refl), tt)
history-IsClosed u c (inr (inr (inr (inl e)))) r =
    inside_of right (with_parents (root ∷ left ∷ [])) e refl r (in_root, (in_left, tt))
history-IsClosed u c (inr (inr (inr (inr (inl e))))) r =
    inside_of apart (with_parents []) e refl r tt
history-IsClosed u c (inr (inr (inr (inr (inr e))))) r = absurd e

collect_ancestors_returns_example :
    (r : Result (List BaseId)) × (collect_ancestors history 6 (start_at left) ≡ some r)
collect_ancestors_returns_example =
    collect_ancestors_returns history everything left 6 history-IsClosed in_left (omega arith)

merge_base-middle : merge_base history 6 middle left ≡ some (ok middle)
unfolding merge_base with_ancestors find_base collect_ancestors read_commit expand visit_all visit
    contains bytes_eq
merge_base-middle = refl

merge_base-apart : merge_base history 6 apart left ≡ some (err ref_not_found)
unfolding merge_base with_ancestors find_base collect_ancestors read_commit expand visit_all visit
    contains bytes_eq
merge_base-apart = refl

-- `left` is an ancestor of `right`, and yet the merge base is the root.
merge_base-root : merge_base history 6 left right ≡ some (ok root)
unfolding merge_base with_ancestors find_base collect_ancestors read_commit expand visit_all visit
    contains bytes_eq
merge_base-root = refl

merge_base_common_example : Ancestor history middle middle × Ancestor history left middle
merge_base_common_example = merge_base_common history 6 middle left middle merge_base-middle

no_ref_error : (u : BaseId) → read_commit history u ≢ err ref_not_found
unfolding read_commit
no_ref_error u = ground arith

merge_base_none_example : ¬ Ancestor history left apart
merge_base_none_example =
    merge_base_none history 6 apart left no_ref_error merge_base-apart apart here

merge_base_returns_example : (r : Result BaseId) × (merge_base history 6 left right ≡ some r)
merge_base_returns_example =
    merge_base_returns history 6 left right everything history-IsClosed in_left
      (inr (inr (inr (inl refl)))) (omega arith)

not_below : ¬ Ancestor history left right
unfolding contains bytes_eq
not_below a = cc ((collect_ancestors_correct history left 6 left_ancestors right collect_left).1 a)

left-root : Ancestor history left root
unfolding contains bytes_eq
left-root = (collect_ancestors_correct history left 6 left_ancestors root collect_left).0 refl

left_ne_right : left ≢ right
left_ne_right e = ground (arith, e)

read_right : read_commit history right ≡ ok (with_parents (root ∷ left ∷ []))
unfolding read_commit bytes_eq
read_right = refl

merge_base_first_parent_example : merge_base history 6 left right ≡ some (ok root)
merge_base_first_parent_example =
    merge_base_first_parent history 4 left right root (with_parents (root ∷ left ∷ [])) (left ∷ [])
      left_ancestors left_ne_right collect_left not_below read_right refl left-root
