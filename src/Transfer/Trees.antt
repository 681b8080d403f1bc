-- ===== src/Transfer/Trees.antt =====
-- pkg/transfer/enumerate.go: what `addTreeClosureExcluding` marks.
use vara.Base.{
  ℕ, zero, suc, ◌≡◌, ◌⊎◌, inl, inr, refl, sym, true, false, ◌||◌, Option, none, some, List, [], ◌∷◌,
  arith, ◌==◌, contains, Bool-cases, Option-cases, Result, ok, err, subst, if◌then◌else◌,
}
use vara.Hash.{BaseId}
use vara.Object.{Object, TreeEntry, blob, tree, commit}
use vara.Transfer.{
  Marked, mark, mode_subtree, Holds, as_commit, as_entries, commit_at, tree_at, add_entries,
  add_tree,
}
use vara.Transfer.Walk.{marked_self, marked_more, start_marked}

-- The entries that are not subtrees, whose mode is 0o040000.
abbrev pub HoldsFile : List TreeEntry → BaseId → Type 0
HoldsFile [] id = ⊥
HoldsFile (e ∷ es) id = ((id ≡ e.hash) × ((e.mode == 0x4000) ≡ false)) ⊎ HoldsFile es id

pub mark_self : (set : List BaseId) (p : BaseId) → contains (mark set p) p ≡ true
mark_self set p = ground (arith, marked_self p set)

pub mark_more :
    (set : List BaseId) (p x : BaseId) → contains set x ≡ true → contains (mark set p) x ≡ true
mark_more set p x h = ground (arith, marked_more p x set h)

pub mark_start :
    (set : List BaseId) (p x : BaseId)
    → contains (mark set p) x ≡ true
    → (x ≡ p) ⊎ (contains set x ≡ true)
mark_start set p x h = elim (Bool-cases (contains set p)) [
  | inl old ↦ ground arith
  | inr new ↦ start_marked p x set (ground arith)
]

as_exclusive :
    (r : Result Object) (es : List TreeEntry) → as_entries r ≡ some es → as_commit r ≡ none
as_exclusive (ok (blob b)) es e = refl
as_exclusive (ok (tree t)) es e = refl
as_exclusive (ok (commit c)) es e = cc e
as_exclusive (err x) es e = refl

module _ (read : BaseId → Result Object) (exclude : List BaseId) where
  pub tree-no_commit :
      (id : BaseId) (es : List TreeEntry) → tree_at read id ≡ some es → commit_at read id ≡ none
  unfolding tree_at commit_at
  tree-no_commit id es e = as_exclusive (read id) es e

  -- An entry of a tree that is not a subtree is neither a tree nor a commit.
  abbrev pub IsHonest : Type 0
  IsHonest =
      (t x : BaseId) (es : List TreeEntry)
      → tree_at read t ≡ some es
      → HoldsFile es x
      → (tree_at read x ≡ none) × (commit_at read x ≡ none)

  -- What the receiver has, or is marked to be sent.
  abbrev pub IsIn : List BaseId → BaseId → Type 0
  IsIn objs x = (contains objs x ≡ true) ⊎ (contains exclude x ≡ true)

  -- An object that is no commit, and whose entries are in, if it is a tree.
  pub record IsWhole (objs : List BaseId) (x : BaseId) : Type 0 where
    pub entries :
        (es : List TreeEntry) → tree_at read x ≡ some es → (y : BaseId) → Holds es y → IsIn objs y
    pub no_commit : commit_at read x ≡ none

  abbrev pub Grows : List BaseId → List BaseId → Type 0
  Grows objs objs' = (x : BaseId) → contains objs x ≡ true → contains objs' x ≡ true

  IsIn-mono :
      (objs objs' : List BaseId) (x : BaseId) → Grows objs objs' → IsIn objs x → IsIn objs' x
  IsIn-mono objs objs' x sub (inl m) = inl (sub x m)
  IsIn-mono objs objs' x sub (inr m) = inr m

  pub IsWhole-mono :
      (objs objs' : List BaseId) (x : BaseId) → Grows objs objs' → IsWhole objs x → IsWhole objs' x
  IsWhole-mono objs objs' x sub w = record {
    entries = λ es e y h. IsIn-mono objs objs' y sub (w.entries es e y h);
    no_commit = w.no_commit;
  }

  -- What a call of `addTreeClosureExcluding` without an error does to the marks.
  pub record Added (id : BaseId) (objs objs' : List BaseId) : Type 0 where
    pub grows : (x : BaseId) → contains objs x ≡ true → contains objs' x ≡ true
    pub target : IsIn objs' id
    pub whole : (x : BaseId) → contains objs' x ≡ true → (contains objs x ≡ true) ⊎ IsWhole objs' x

  record AddedAll (es : List TreeEntry) (objs objs' : List BaseId) : Type 0 where
    grows : (x : BaseId) → contains objs x ≡ true → contains objs' x ≡ true
    target : (y : BaseId) → Holds es y → IsIn objs' y
    whole : (x : BaseId) → contains objs' x ≡ true → (contains objs x ≡ true) ⊎ IsWhole objs' x

  leaf-IsWhole :
      (objs : List BaseId) (x : BaseId)
      → (tree_at read x ≡ none) × (commit_at read x ≡ none)
      → IsWhole objs x
  leaf-IsWhole objs x (no_tree, no_commit) = record {
    entries = λ es e. absurd (cc (no_tree, e));
    no_commit = no_commit;
  }

  tree-IsWhole :
      (id : BaseId) (es : List TreeEntry) (objs : List BaseId)
      → tree_at read id ≡ some es
      → ((y : BaseId) → Holds es y → IsIn objs y)
      → IsWhole objs id
  tree-IsWhole id es objs t all = record {
    entries =
        λ es' e y h. let same : es' ≡ es = ground arith in all y (subst (λ k. Holds k y) same h);
    no_commit = tree-no_commit id es t;
  }

  Added-cons :
      (e : TreeEntry) (es : List TreeEntry) (objs middle objs' : List BaseId)
      → Added e.hash objs middle
      → AddedAll es middle objs'
      → AddedAll (e ∷ es) objs objs'
  Added-cons e es objs middle objs' head rest = record {
    grows = λ x m. rest.grows x (head.grows x m);
    target = λ y h. elim h [
      | inl eq ↦ subst (IsIn objs') (sym eq) (IsIn-mono middle objs' e.hash rest.grows head.target)
      | inr more ↦ rest.target y more
    ];
    whole = λ x m. elim (rest.whole x m) [
      | inr w ↦ inr w
      | inl old ↦ elim (head.whole x old) [
        | inl older ↦ inl older
        | inr w ↦ inr (IsWhole-mono middle objs' x rest.grows w)
      ]
    ];
  }

  file-Added :
      (id : BaseId) (objs : List BaseId)
      → (tree_at read id ≡ none) × (commit_at read id ≡ none)
      → Added id objs (if contains exclude id then objs else mark objs id)
  file-Added id objs leaf = elim (Bool-cases (contains exclude id)) [
    | inl out ↦ rw out (record { grows = λ x m. m; target = inr out; whole = λ x m. inl m })
    | inr new ↦ rw new (record {
      grows = λ x m. mark_more objs id x m;
      target = inl (mark_self objs id);
      whole = λ x m. elim (mark_start objs id x m) [
        | inl eq ↦
            inr (subst (IsWhole (mark objs id)) (sym eq) (leaf-IsWhole (mark objs id) id leaf))
        | inr old ↦ inl old
      ];
    })
  ]

  add_entries-AddedAll :
      (sub : BaseId → List BaseId → Option Marked)
      → ((id : BaseId) (objs objs' : List BaseId)
          → sub id objs ≡ some (objs', none)
          → Added id objs objs')
      → (es : List TreeEntry) (objs objs' : List BaseId)
      → ((x : BaseId) → HoldsFile es x → (tree_at read x ≡ none) × (commit_at read x ≡ none))
      → add_entries sub exclude es objs ≡ some (objs', none)
      → AddedAll es objs objs'
  unfolding add_entries
  add_entries-AddedAll sub ih [] objs objs' honest e =
      let same : objs ≡ objs' = ground arith in
      rw (← same) (record { grows = λ x m. m; target = λ y h. absurd h; whole = λ x m. inl m })
  add_entries-AddedAll sub ih (e ∷ es) objs objs' honest h =
      let rest =
        λ (middle : List BaseId) (k : add_entries sub exclude es middle ≡ some (objs', none)).
          add_entries-AddedAll sub ih es middle objs' (λ x f. honest x (inr f)) k in
      elim (Bool-cases (e.mode == mode_subtree)) [
        | inr file ↦
            let middle = if contains exclude e.hash then objs else mark objs e.hash in
            Added-cons e es objs middle objs'
              (file-Added e.hash objs (honest e.hash (inl (refl, file))))
              (rest middle (ground arith))
        | inl subtree ↦ elim (Option-cases (sub e.hash objs)) [
          | inl out ↦ absurd (ground arith)
          | inr ((middle, some x), out) ↦ absurd (ground arith)
          | inr ((middle, none), out) ↦
              Added-cons e es objs middle objs' (ih e.hash objs middle out)
                (rest middle (ground arith))
        ]
      ]

  -- Marking a tree without an error: what was marked stays so, the tree is in, and each new mark is a
  -- leaf, or a tree whose entries are all in.
  pub add_tree-Added :
      IsHonest
      → (fuel : ℕ) (id : BaseId) (objs objs' : List BaseId)
      → add_tree read fuel exclude id objs ≡ some (objs', none)
      → Added id objs objs'
  unfolding add_tree
  add_tree-Added honest zero id objs objs' e = absurd (cc e)
  add_tree-Added honest (suc fuel) id objs objs' e =
      elim (Bool-cases (contains exclude id || contains objs id)) [
        | inl old ↦
            let same : objs ≡ objs' = ground arith in
            rw (← same) (record { grows = λ x m. m; target = ground arith; whole = λ x m. inl m })
        | inr new ↦ elim (Option-cases (tree_at read id)) [
          | inl t ↦ absurd (ground arith)
          | inr (es, t) ↦
              let all =
                add_entries-AddedAll (add_tree read fuel exclude)
                  (λ i o o' k. add_tree-Added honest fuel i o o' k) es (id ∷ objs) objs'
                  (λ x f. honest id x es t f) (ground arith) in
              record {
                grows = λ x m. all.grows x (marked_more id x objs m);
                target = inl (all.grows id (marked_self id objs));
                whole = λ x m. elim (all.whole x m) [
                  | inr w ↦ inr w
                  | inl first ↦ elim (start_marked id x objs first) [
                    | inr old ↦ inl old
                    | inl eq ↦
                        inr (subst (IsWhole objs') (sym eq) (tree-IsWhole id es objs' t all.target))
                  ]
                ];
              }
        ]
      ]
