-- ===== src/Tree/Built.antt =====
-- pkg/tree/node.go: what is in the tree that `BuildFromIndex` makes.
use vara.Base.{
  ℕ, ◌≡◌, refl, sym, ap, ◌∙◌, Bool, true, false, Option, none, some, List, [], ◌∷◌, arith,
  if◌then◌else◌, Bytes, bytes_eq, bytes_eq_iff, bytes_eq_refl, Option-cases, subst, inl, inr,
}
use vara.Hash.{BaseId}
use vara.Tree.{
  Node, blob_node, tree_node, Children, no_children, child, child_at, set_child, children_below,
  default_mode, add_path,
}

-- The blob at the end of a walk over the parts of a path.
unfoldable pub blob_at : List Bytes → Option Node → Option BaseId
blob_at parts none = none
blob_at [] (some (blob_node id mode)) = some id
blob_at [] (some (tree_node cs)) = none
blob_at (part ∷ parts) (some (blob_node id mode)) = none
blob_at (part ∷ parts) (some (tree_node cs)) = blob_at parts (child_at part cs)

-- The second path is inside the first one, as of a directory.
unfoldable pub inside : List Bytes → List Bytes → Bool
inside [] [] = false
inside [] (q ∷ qs) = true
inside (p ∷ ps) [] = false
inside (p ∷ ps) (q ∷ qs) = let rest = inside ps qs in if bytes_eq p q then rest else false

unfoldable pub same_path : List Bytes → List Bytes → Bool
same_path [] [] = true
same_path [] (q ∷ qs) = false
same_path (p ∷ ps) [] = false
same_path (p ∷ ps) (q ∷ qs) = let rest = same_path ps qs in if bytes_eq p q then rest else false

child_at-set_child :
    (name other : Bytes) (node : Node) (cs : Children)
    → child_at other (set_child name node cs)
      ≡ (if bytes_eq name other then some node else child_at other cs)
unfolding child_at set_child
child_at-set_child name other node no_children = refl
child_at-set_child name other node (child n old cs) = ground (
  arith,
  child_at-set_child name other node cs,
  bytes_eq_iff n name,
  bytes_eq_iff n other,
  bytes_eq_iff name other,
)

-- What is at a path after a blob was put at another one.
abbrev pub after_path : List Bytes → BaseId → List Bytes → Option BaseId → Option BaseId
after_path parts id qs before =
    if same_path parts qs then some id else if inside parts qs then none else before

blob_at-leaf :
    (id : BaseId) (mode : ℕ) (qs : List Bytes) (before : Option BaseId)
    → blob_at qs (some (blob_node id mode)) ≡ after_path [] id qs before
unfolding blob_at same_path inside
blob_at-leaf id mode [] before = refl
blob_at-leaf id mode (q ∷ qs) before = refl

blob_at-nothing : (qs : List Bytes) → blob_at qs none ≡ none
unfolding blob_at
blob_at-nothing [] = refl
blob_at-nothing (q ∷ qs) = refl

pub blob_at-empty : (qs : List Bytes) → blob_at qs (some (tree_node no_children)) ≡ none
unfolding blob_at child_at
blob_at-empty [] = refl
blob_at-empty (q ∷ qs) = blob_at-nothing qs

some_inj {ℓ} : {A : Type ℓ} {a b : A} → some a ≡ some b → a ≡ b
some_inj h = cc h

children_below-blob_at :
    (node : Option Node) (sub : Children) (qs : List Bytes)
    → children_below node ≡ some sub
    → blob_at qs (some (tree_node sub)) ≡ blob_at qs node
children_below-blob_at none sub qs e =
    ap (λ (cs : Children). blob_at qs (some (tree_node cs))) (sym (some_inj e))
    ∙ blob_at-empty qs
    ∙ sym (blob_at-nothing qs)
children_below-blob_at (some (tree_node cs)) sub qs e =
    ap (λ (c : Children). blob_at qs (some (tree_node c))) (sym (some_inj e))
children_below-blob_at (some (blob_node id mode)) sub qs e = absurd (cc e)

child-blob_at :
    (here : Bool) (ps : List Bytes) (id : BaseId) (node : Node) (old : Option Node)
    (qs : List Bytes)
    → (here ≡ true → blob_at qs (some node) ≡ after_path ps id qs (blob_at qs old))
    → blob_at qs (if here then some node else old) ≡ (
        if if here then same_path ps qs else false
        then some id
        else if if here then inside ps qs else false
        then none
        else blob_at qs old)
child-blob_at true ps id node old qs below = below refl
child-blob_at false ps id node old qs below = refl

-- A child that is put at a part, seen from a path.
set_child-blob_at :
    (p : Bytes) (ps : List Bytes) (id : BaseId) (node : Node) (cs : Children) (qs : List Bytes)
    → ((rest : List Bytes)
        → blob_at rest (some node) ≡ after_path ps id rest (blob_at rest (child_at p cs)))
    → blob_at qs (some (tree_node (set_child p node cs)))
      ≡ after_path (p ∷ ps) id qs (blob_at qs (some (tree_node cs)))
unfolding blob_at same_path inside
set_child-blob_at p ps id node cs [] below = refl
set_child-blob_at p ps id node cs (q ∷ qs) below =
    ap (blob_at qs) (child_at-set_child p q node cs)
    ∙ child-blob_at (bytes_eq p q) ps id node (child_at q cs) qs (λ here.
      below qs
      ∙ ap (λ (x : Bytes). after_path ps id qs (blob_at qs (child_at x cs)))
          ((bytes_eq_iff p q).0 here))

pub add_path-blob_at :
    (p : Bytes) (ps : List Bytes) (id : BaseId) (cs cs' : Children) (qs : List Bytes)
    → add_path (p ∷ ps) id cs ≡ some cs'
    → blob_at qs (some (tree_node cs'))
      ≡ after_path (p ∷ ps) id qs (blob_at qs (some (tree_node cs)))
unfolding add_path
add_path-blob_at p [] id cs cs' qs e =
    subst
      (λ (c : Children).
        blob_at qs (some (tree_node c))
        ≡ after_path (p ∷ []) id qs (blob_at qs (some (tree_node cs))))
      (some_inj e)
      (set_child-blob_at p [] id (blob_node id default_mode) cs qs
        (λ rest. blob_at-leaf id default_mode rest (blob_at rest (child_at p cs))))
add_path-blob_at p (next ∷ ps) id cs cs' qs e =
    elim (Option-cases (children_below (child_at p cs))) [
      | inl blob ↦ absurd (cc (rw (blob, add_path) at e))
      | inr (sub, below) ↦ elim (Option-cases (add_path (next ∷ ps) id sub)) [
        | inl fails ↦ absurd (cc (rw (below, fails, add_path) at e))
        | inr (sub', done) ↦
            subst
              (λ (c : Children).
                blob_at qs (some (tree_node c))
                ≡ after_path (p ∷ next ∷ ps) id qs (blob_at qs (some (tree_node cs))))
              (some_inj (rw (below, done, add_path) at e))
              (set_child-blob_at p (next ∷ ps) id (tree_node sub') cs qs (λ rest.
                add_path-blob_at next ps id sub sub' rest done
                ∙ ap (after_path (next ∷ ps) id rest)
                    (children_below-blob_at (child_at p cs) sub rest below)))
      ]
    ]

pub add_path-Some :
    (p : Bytes) (ps : List Bytes) (id : BaseId) (cs : Children)
    → ((qs : List Bytes) → inside qs (p ∷ ps) ≡ true → blob_at qs (some (tree_node cs)) ≡ none)
    → (cs' : Children) × (add_path (p ∷ ps) id cs ≡ some cs')
unfolding add_path blob_at inside
add_path-Some p [] id cs free = (set_child p (blob_node id default_mode) cs, refl)
add_path-Some p (next ∷ ps) id cs free =
    go (λ sub f. add_path-Some next ps id sub f) (child_at p cs) refl
  where
    deeper :
        (qs : List Bytes) → inside qs (next ∷ ps) ≡ true → inside (p ∷ qs) (p ∷ next ∷ ps) ≡ true
    deeper qs i = rw (bytes_eq_refl p) i

    under :
        ((sub : Children)
          → ((qs : List Bytes)
              → inside qs (next ∷ ps) ≡ true
              → blob_at qs (some (tree_node sub)) ≡ none)
          → (cs' : Children) × (add_path (next ∷ ps) id sub ≡ some cs'))
        → (sub : Children) → children_below (child_at p cs) ≡ some sub
        → (cs' : Children) × (add_path (p ∷ next ∷ ps) id cs ≡ some cs')
    under later sub below =
        let (sub', done) = later sub (λ qs i.
          children_below-blob_at (child_at p cs) sub qs below ∙ free (p ∷ qs) (deeper qs i)) in
        (set_child p (tree_node sub') cs, rw (below, done, add_path) refl)

    go :
        ((sub : Children)
          → ((qs : List Bytes)
              → inside qs (next ∷ ps) ≡ true
              → blob_at qs (some (tree_node sub)) ≡ none)
          → (cs' : Children) × (add_path (next ∷ ps) id sub ≡ some cs'))
        → (n : Option Node) → child_at p cs ≡ n
        → (cs' : Children) × (add_path (p ∷ next ∷ ps) id cs ≡ some cs')
    go later none e = under later no_children (ap children_below e)
    go later (some (tree_node sub)) e = under later sub (ap children_below e)
    go later (some (blob_node x mode)) e =
        absurd (cc (sym (ap (blob_at []) e) ∙ free (p ∷ []) (deeper [] refl)))
