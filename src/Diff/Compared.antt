-- ===== src/Diff/Compared.antt =====
-- pkg/diff/diff.go: what `DiffTrees` returns, path by path.
use vara.Base.{
  ℕ, zero, suc, ◌≡◌, ◌↔◌, ◌⊎◌, inl, inr, refl, sym, ap, ◌∙◌, Option, none, some, List, [], ◌∷◌,
  ◌++◌, ◌==◌, arith, if◌then◌else◌, Bytes, bytes_eq, bytes_eq_iff, lookup, insert, lookup-insert,
  Bool-cases, Option-cases, Result-cases, Result, ok, subst,
}
use vara.Hash.{BaseId}
use vara.Object.{Object, TreeEntry}
use vara.Diff.Collected.{IsFilesOf, files_of-IsFilesOf}
use vara.Diff.Trees.{
  FileMap, added, deleted, modified, zero_object, FileDiff, tree_entries, collect_entries, old_diff,
  old_diffs, new_diff, new_diffs, collect_files, files_of, diff_trees,
}

-- What a path is reported as, from the blobs that the two trees have under it.
abbrev pub diff_at : Bytes → Option BaseId → Option BaseId → Option FileDiff
diff_at path none none = none
diff_at path (some old) none = some (record {
  change_type = deleted;
  old_path = path;
  new_path = [];
  old_blob = old;
  new_blob = zero_object;
})
diff_at path none (some new) = some (record {
  change_type = added;
  old_path = [];
  new_path = path;
  old_blob = zero_object;
  new_blob = new;
})
diff_at path (some old) (some new) =
    if bytes_eq old new
    then none
    else some (record {
      change_type = modified;
      old_path = path;
      new_path = path;
      old_blob = old;
      new_blob = new;
    })

abbrev pub In : FileDiff → List FileDiff → Type 0
In d [] = ⊥
In d (e ∷ ds) = (d ≡ e) ⊎ In d ds

-- No key twice.
abbrev pub IsMap : FileMap → Type 0
IsMap [] = Unit {0}
IsMap ((p, b) ∷ m) = (lookup p m ≡ none) × IsMap m

some_inj : {a b : FileDiff} → some a ≡ some b → a ≡ b
some_inj h = cc h

insert-IsMap : (p : Bytes) (b : BaseId) (m : FileMap) → IsMap m → IsMap (insert p b m)
unfolding lookup insert
insert-IsMap p b [] h = (refl, tt)
insert-IsMap p b ((q, c) ∷ m) h =
    ground (arith, insert-IsMap p b m, lookup-insert p q b m, bytes_eq_iff q p, bytes_eq_iff p q)

-- One round of a loop of `DiffTrees`.
In-old_diff :
    (d : FileDiff) (p : Bytes) (b : BaseId) (o : Option BaseId) (rest : List FileDiff)
    → In d (old_diff p b o rest) ↔ ((diff_at p (some b) o ≡ some d) ⊎ In d rest)
In-old_diff d p b none rest = (
  λ m. elim m [ inl e ↦ inl (ap some (sym e)) | inr n ↦ inr n ],
  λ m. elim m [ inl e ↦ inl (some_inj (sym e)) | inr n ↦ inr n ],
)
In-old_diff d p b (some c) rest = elim (Bool-cases (bytes_eq b c)) [
  | inl same ↦ rw same (inr, λ m. elim m [ inl e ↦ absurd (cc e) | inr n ↦ n ])
  | inr other ↦ rw other (
    λ m. elim m [ inl e ↦ inl (ap some (sym e)) | inr n ↦ inr n ],
    λ m. elim m [ inl e ↦ inl (some_inj (sym e)) | inr n ↦ inr n ],
  )
]

In-new_diff :
    (d : FileDiff) (p : Bytes) (b : BaseId) (o : Option BaseId) (rest : List FileDiff)
    → In d (new_diff p b o rest) ↔ (((o ≡ none) × (diff_at p none (some b) ≡ some d)) ⊎ In d rest)
In-new_diff d p b none rest = (
  λ m. elim m [ inl e ↦ inl (refl, ap some (sym e)) | inr n ↦ inr n ],
  λ m. elim m [ inl (_, e) ↦ inl (some_inj (sym e)) | inr n ↦ inr n ],
)
In-new_diff d p b (some c) rest = (inr, λ m. elim m [ inl (e, _) ↦ absurd (cc e) | inr n ↦ n ])

lookup-head : (p : Bytes) (b : BaseId) (m : FileMap) → lookup p ((p, b) ∷ m) ≡ some b
unfolding lookup
lookup-head p b m = ground (arith, bytes_eq_iff p p)

shift :
    (p q : Bytes) (b c : BaseId) (m : FileMap)
    → lookup p m ≡ none
    → lookup q m ≡ some c
    → lookup q ((p, b) ∷ m) ≡ some c
unfolding lookup
shift p q b c m h e = ground (arith, bytes_eq_iff p q)

lookup-cons_cases :
    (p q : Bytes) (b c : BaseId) (m : FileMap)
    → lookup q ((p, b) ∷ m) ≡ some c
    → ((p ≡ q) × (b ≡ c)) ⊎ (lookup q m ≡ some c)
unfolding lookup
lookup-cons_cases p q b c m e = ground (arith, bytes_eq_iff p q)

old_diffs_found :
    (new files : FileMap) (rest : List FileDiff) (d : FileDiff)
    → IsMap files
    → In d (old_diffs new files rest)
    → In d rest
      ⊎ ((p : Bytes) × (b : BaseId) × (lookup p files ≡ some b)
          × (diff_at p (some b) (lookup p new) ≡ some d))
unfolding old_diffs
old_diffs_found new [] rest d h m = inl m
old_diffs_found new ((p, b) ∷ files) rest d (free, h) m =
    elim ((In-old_diff d p b (lookup p new) (old_diffs new files rest)).0 m) [
      | inl e ↦ inr (p, b, lookup-head p b files, e)
      | inr n ↦ elim (old_diffs_found new files rest d h n) [
        | inl r ↦ inl r
        | inr (q, c, at, e) ↦ inr (q, c, shift p q b c files free at, e)
      ]
    ]

old_diffs_all :
    (new files : FileMap) (rest : List FileDiff) (d : FileDiff) (p : Bytes) (b : BaseId)
    → In d rest ⊎ ((lookup p files ≡ some b) × (diff_at p (some b) (lookup p new) ≡ some d))
    → In d (old_diffs new files rest)
unfolding old_diffs lookup
old_diffs_all new [] rest d p b (inl m) = m
old_diffs_all new [] rest d p b (inr (at, e)) = absurd (cc at)
old_diffs_all new ((q, c) ∷ files) rest d p b (inl m) =
    (In-old_diff d q c (lookup q new) (old_diffs new files rest)).1
      (inr (old_diffs_all new files rest d p b (inl m)))
old_diffs_all new ((q, c) ∷ files) rest d p b (inr (at, e)) =
    elim (lookup-cons_cases q p c b files at) [
      | inl (same, blob) ↦
          (In-old_diff d q c (lookup q new) (old_diffs new files rest)).1 (inl (rw (same, blob) e))
      | inr later ↦
          (In-old_diff d q c (lookup q new) (old_diffs new files rest)).1
            (inr (old_diffs_all new files rest d p b (inr (later, e))))
    ]

new_diffs_found :
    (old files : FileMap) (d : FileDiff)
    → IsMap files
    → In d (new_diffs old files)
    → (p : Bytes) × (b : BaseId) × (lookup p files ≡ some b)
      × (lookup p old ≡ none)
      × (diff_at p none (some b) ≡ some d)
unfolding new_diffs
new_diffs_found old [] d h m = absurd m
new_diffs_found old ((p, b) ∷ files) d (free, h) m =
    elim ((In-new_diff d p b (lookup p old) (new_diffs old files)).0 m) [
      | inl (none_old, e) ↦ (p, b, lookup-head p b files, none_old, e)
      | inr n ↦
          let (q, c, at, none_old, e) = new_diffs_found old files d h n in
          (q, c, shift p q b c files free at, none_old, e)
    ]

new_diffs_all :
    (old files : FileMap) (d : FileDiff) (p : Bytes) (b : BaseId)
    → lookup p files ≡ some b
    → lookup p old ≡ none
    → diff_at p none (some b) ≡ some d
    → In d (new_diffs old files)
unfolding new_diffs lookup
new_diffs_all old [] d p b at none_old e = absurd (cc at)
new_diffs_all old ((q, c) ∷ files) d p b at none_old e = elim (lookup-cons_cases q p c b files at) [
  | inl (same, blob) ↦
      (In-new_diff d q c (lookup q old) (new_diffs old files)).1
        (inl (rw same none_old, rw (same, blob) e))
  | inr later ↦
      (In-new_diff d q c (lookup q old) (new_diffs old files)).1
        (inr (new_diffs_all old files d p b later none_old e))
]

-- The collection keeps one blob for each path.
collect_entries-IsMap :
    (collect_sub : BaseId → Bytes → FileMap → Option (Result FileMap))
    → ((id : BaseId) (prefix : Bytes) (m m' : FileMap)
        → IsMap m
        → collect_sub id prefix m ≡ some (ok m')
        → IsMap m')
    → (prefix : Bytes) (es : List TreeEntry) (m m' : FileMap) → IsMap m
    → collect_entries collect_sub prefix es m ≡ some (ok m')
    → IsMap m'
unfolding collect_entries
collect_entries-IsMap sub keeps prefix [] m m' h e =
    let same : m ≡ m' = ground arith in subst IsMap same h
collect_entries-IsMap sub keeps prefix (entry ∷ es) m m' h e =
    elim (Bool-cases (entry.mode == 0x4000)) [
      | inr file ↦
          collect_entries-IsMap sub keeps prefix es (insert (prefix ++ entry.name) entry.hash m) m'
            (insert-IsMap (prefix ++ entry.name) entry.hash m h) (ground arith)
      | inl dir ↦ elim (Option-cases (sub entry.hash ((prefix ++ entry.name) ++ b'/' ∷ []) m)) [
        | inl out ↦ absurd (ground arith)
        | inr (r, out) ↦ elim (Result-cases r) [
          | inr (x, q) ↦ absurd (ground arith)
          | inl (m₁, q) ↦
              let h₁ =
                keeps entry.hash ((prefix ++ entry.name) ++ b'/' ∷ []) m m₁ h (out ∙ ap some q) in
              collect_entries-IsMap sub keeps prefix es m₁ m' h₁ (ground arith)
        ]
      ]
    ]

module _ (read : BaseId → Result Object) where
  collect_files-IsMap :
      (fuel : ℕ) (id : BaseId) (prefix : Bytes) (m m' : FileMap)
      → IsMap m
      → collect_files read fuel id prefix m ≡ some (ok m')
      → IsMap m'
  unfolding collect_files
  collect_files-IsMap zero id prefix m m' h e = absurd (cc e)
  collect_files-IsMap (suc fuel) id prefix m m' h e = elim (Result-cases (tree_entries (read id))) [
    | inr (x, q) ↦ absurd (ground arith)
    | inl (es, q) ↦
        collect_entries-IsMap (collect_files read fuel) (collect_files-IsMap fuel) prefix es m m' h
          (ground arith)
  ]

  pub files_of-IsMap :
      (fuel : ℕ) (id : BaseId) (m : FileMap) → files_of read fuel id ≡ some (ok m) → IsMap m
  unfolding files_of
  files_of-IsMap fuel id m e = elim (Bool-cases (bytes_eq id zero_object)) [
    | inl z ↦ let same : [] ≡ m = ground arith in subst IsMap same tt
    | inr n ↦ collect_files-IsMap fuel id [] [] m tt (ground arith)
  ]

  -- If `sort.Slice` keeps the members, and `DiffTrees` returns without an error, there is a map of the files of each of the two trees:
  -- its paths are exactly those of the files below the tree, subtrees included, each with a blob that
  -- the tree has there, and none for the zero identifier. The report has exactly the paths under
  -- which the two maps differ, each by its two blobs.
  pub diff_trees_correct :
      (sort : List FileDiff → List FileDiff) (fuel : ℕ) (old_tree new_tree : BaseId)
      (diffs : List FileDiff)
      → ((d : FileDiff) (ds : List FileDiff) → In d (sort ds) ↔ In d ds)
      → diff_trees read sort fuel old_tree new_tree ≡ some (ok diffs)
      → (old new : FileMap) × IsFilesOf read old_tree old
        × IsFilesOf read new_tree new
        × ((d : FileDiff)
            → In d diffs ↔ ((p : Bytes) × (diff_at p (lookup p old) (lookup p new) ≡ some d)))
  unfolding diff_trees
  diff_trees_correct sort fuel old_tree new_tree diffs sorted e =
      elim (Option-cases (files_of read fuel old_tree)) [
        | inl f ↦ absurd (ground arith)
        | inr (r₁, f) ↦ elim (Result-cases r₁) [
          | inr (x, q) ↦ absurd (ground arith)
          | inl (old, q) ↦ elim (Option-cases (files_of read fuel new_tree)) [
            | inl g ↦ absurd (ground arith)
            | inr (r₂, g) ↦ elim (Result-cases r₂) [
              | inr (x, s) ↦ absurd (ground arith)
              | inl (new, s) ↦
                  let h₁ = files_of-IsMap fuel old_tree old (f ∙ ap some q) in
                  let h₂ = files_of-IsMap fuel new_tree new (g ∙ ap some s) in
                  let all = old_diffs new old (new_diffs old new) in
                  let same : sort all ≡ diffs = ground arith in
                  (
                    old,
                    new,
                    files_of-IsFilesOf read fuel old_tree old (f ∙ ap some q),
                    files_of-IsFilesOf read fuel new_tree new (g ∙ ap some s),
                    λ d. (
                      λ m. sound old new d h₁ h₂ ((sorted d all).0 (subst (In d) (sym same) m)),
                      λ at. subst (In d) same ((sorted d all).1 (complete old new d at)),
                    ),
                  )
            ]
          ]
        ]
      ]
    where
      sound :
          (old new : FileMap) (d : FileDiff)
          → IsMap old
          → IsMap new
          → In d (old_diffs new old (new_diffs old new))
          → (p : Bytes) × (diff_at p (lookup p old) (lookup p new) ≡ some d)
      sound old new d h₁ h₂ m = elim (old_diffs_found new old (new_diffs old new) d h₁ m) [
        | inl n ↦
            let (p, b, at, free, same) = new_diffs_found old new d h₂ n in (p, rw (free, at) same)
        | inr (p, b, at, same) ↦ (p, rw at same)
      ]

      complete :
          (old new : FileMap) (d : FileDiff)
          → (p : Bytes) × (diff_at p (lookup p old) (lookup p new) ≡ some d)
          → In d (old_diffs new old (new_diffs old new))
      complete old new d (p, e) = elim (Option-cases (lookup p old)) [
        | inr (b, at) ↦ old_diffs_all new old (new_diffs old new) d p b (inr (at, rw (← at) e))
        | inl free ↦ elim (Option-cases (lookup p new)) [
          | inl gone ↦ absurd (ground arith)
          | inr (b, at) ↦
              old_diffs_all new old (new_diffs old new) d p b
                (inl (new_diffs_all old new d p b at free (ground arith)))
        ]
      ]
