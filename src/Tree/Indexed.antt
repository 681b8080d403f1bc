-- ===== src/Tree/Indexed.antt =====
-- pkg/tree/node.go: the tree of a whole index.
use vara.Base.{
  ◌==◌, ◌≡◌, refl, sym, ap, ◌∙◌, Bool, true, false, not, ◌&&◌, Option, none, some, List, [], ◌∷◌,
  arith, if◌then◌else◌, Bytes, bytes_eq_iff, Bool-cases, subst, inl, inr,
}
use vara.Hash.{BaseId}
use vara.Index.{Entry, state_deleted}
use vara.Tree.{Children, no_children, tree_node, split_path, add_path, add_index, build_from_index}
use vara.Tree.Built.{
  blob_at, inside, same_path, after_path, add_path-blob_at, add_path-Some, blob_at-empty,
}

-- No entry that is not deleted has its path inside the one that is given.
unfoldable pub none_within : List Bytes → List Entry → Bool
none_within parts [] = true
none_within parts (f ∷ fs) =
    let rest = none_within parts fs in
    if f.state == state_deleted then rest else not (inside parts (split_path f.path)) && rest

-- No entry has its path inside that of an earlier one, deleted entries apart.
unfoldable pub none_inside : List Entry → Bool
none_inside [] = true
none_inside (e ∷ es) =
    let rest = none_inside es in
    if e.state == state_deleted then rest else none_within (split_path e.path) es && rest

-- What the entries stage at a path, one after the other: each its blob at its own path, and nothing
-- at the paths inside that.
unfoldable pub staged_at : List Entry → List Bytes → Option BaseId → Option BaseId
staged_at [] qs before = before
staged_at (e ∷ es) qs before = staged_at es qs (
    if e.state == state_deleted
    then before
    else after_path (split_path e.path) e.object_id qs before)

split_path-cons : (path : Bytes) → (p : Bytes) × (ps : List Bytes) × (split_path path ≡ p ∷ ps)
unfolding split_path
split_path-cons [] = ([], [], refl)
split_path-cons (b ∷ rest) =
    let (p, ps, e) = split_path-cons rest in
    elim (Bool-cases (b == b'/')) [
      | inl slash ↦ rw (slash, e) ([], p ∷ ps, refl)
      | inr other ↦ rw (other, e) (b ∷ p, ps, refl)
    ]

same_path-eq : (ps qs : List Bytes) → same_path ps qs ≡ true → ps ≡ qs
unfolding same_path
same_path-eq [] [] h = refl
same_path-eq [] (q ∷ qs) h = absurd (cc h)
same_path-eq (p ∷ ps) [] h = absurd (cc h)
same_path-eq (p ∷ ps) (q ∷ qs) h = ground (arith, same_path-eq ps qs, bytes_eq_iff p q)

-- No blob is on the way to the path of an entry.
abbrev Free : List Entry → Children → Type 0
Free [] cs = Unit
Free (f ∷ fs) cs =
    ((f.state == state_deleted) ≡ false
      → (qs : List Bytes) → inside qs (split_path f.path) ≡ true
      → blob_at qs (some (tree_node cs)) ≡ none)
    × Free fs cs

Free-empty : (es : List Entry) → Free es no_children
Free-empty [] = tt
Free-empty (e ∷ es) = (λ live qs i. blob_at-empty qs, Free-empty es)

Free-add_path :
    (p : Bytes) (ps : List Bytes) (id : BaseId) (cs cs' : Children) (es : List Entry)
    → add_path (p ∷ ps) id cs ≡ some cs'
    → none_within (p ∷ ps) es ≡ true
    → Free es cs
    → Free es cs'
unfolding none_within
Free-add_path p ps id cs cs' [] done w free = tt
Free-add_path p ps id cs cs' (f ∷ fs) done w (here, free) = (
  λ live qs i.
      let now = add_path-blob_at p ps id cs cs' qs done in
      let apart : inside (p ∷ ps) (split_path f.path) ≡ false = ground arith in
      let other : same_path (p ∷ ps) qs ≡ false = elim (Bool-cases (same_path (p ∷ ps) qs)) [
        | inr o ↦ o
        | inl s ↦
            let at =
              ap (λ (x : List Bytes). inside x (split_path f.path)) (same_path-eq (p ∷ ps) qs s) in
            absurd (cc (sym apart ∙ at ∙ i))
      ] in
      ground (arith, now, other, here live qs i),
  Free-add_path p ps id cs cs' fs done (ground arith) free,
)

add_index-staged_at :
    (es : List Entry) (cs : Children)
    → none_inside es ≡ true
    → Free es cs
    → (cs' : Children) × (add_index es cs ≡ some cs')
      × ((qs : List Bytes)
          → blob_at qs (some (tree_node cs')) ≡ staged_at es qs (blob_at qs (some (tree_node cs))))
unfolding add_index none_inside staged_at
add_index-staged_at [] cs n free = (cs, refl, λ qs. refl)
add_index-staged_at (e ∷ es) cs n (here, free) = elim (Bool-cases (e.state == state_deleted)) [
  | inl gone ↦
      let (cs', done, seen) = add_index-staged_at es cs (ground arith) free in
      (cs', rw (gone, add_index) done, λ qs. rw gone (seen qs))
  | inr live ↦
      let (p, ps, split) = split_path-cons e.path in
      let (cs', added) = add_path-Some p ps e.object_id cs (λ qs i. here live qs (rw split i)) in
      let put : add_path (split_path e.path) e.object_id cs ≡ some cs' = rw split added in
      let apart : none_within (split_path e.path) es ≡ true = ground arith in
      let (cs'', done, seen) = add_index-staged_at es cs' (ground arith) (
        Free-add_path p ps e.object_id cs cs' es added
          (subst (λ (x : List Bytes). none_within x es ≡ true) split apart) free) in
      (
        cs'',
        rw (live, put, add_index) done,
        λ qs. rw live (
            seen qs
            ∙ ap (staged_at es qs) (rw split (add_path-blob_at p ps e.object_id cs cs' qs added))),
      )
]

-- If no entry has its path inside that of an earlier one (deleted entries apart), then
-- `BuildFromIndex` returns, without a write to a nil map, and at every path its tree has the blob
-- that the entries stage there one after the other, or none.
pub build_from_index-staged_at :
    (es : List Entry)
    → none_inside es ≡ true
    → (cs : Children) × (build_from_index es ≡ some cs)
      × ((qs : List Bytes) → blob_at qs (some (tree_node cs)) ≡ staged_at es qs none)
build_from_index-staged_at es n =
    let (cs, done, seen) = add_index-staged_at es no_children n (Free-empty es) in
    (cs, done, λ qs. seen qs ∙ ap (staged_at es qs) (blob_at-empty qs))
