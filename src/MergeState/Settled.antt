-- ===== src/MergeState/Settled.antt =====
-- internal/mergestate/mergestate.go: what is left to resolve.
use vara.Base.{
  ◌≡◌, refl, sym, ap, ◌∙◌, Bool, true, false, List, [], ◌∷◌, arith, if◌then◌else◌, Bytes, bytes_eq,
  bytes_eq_iff, contains, is_empty, Bool-cases, subst, inl, inr,
}
use vara.MergeState.{Conflicted, paths, unresolved_paths, all_resolved, set_resolved}

-- `SetResolved` for one path after the other.
unfoldable pub settle_all : List Bytes → List Conflicted → List Conflicted
settle_all [] es = es
settle_all (p ∷ ps) es = settle_all ps (set_resolved p true es).0

-- The paths that are not among the settled ones.
unfoldable pub remaining : List Bytes → List Bytes → List Bytes
remaining settled [] = []
remaining settled (p ∷ ps) =
    let rest = remaining settled ps in if contains settled p then rest else p ∷ rest

abbrev pub NoneTwice : List Bytes → Type 0
NoneTwice [] = Unit
NoneTwice (p ∷ ps) = (contains ps p ≡ false) × NoneTwice ps

paths-set_resolved :
    (p : Bytes) (flag : Bool) (es : List Conflicted) → paths (set_resolved p flag es).0 ≡ paths es
unfolding paths set_resolved
paths-set_resolved p flag [] = refl
paths-set_resolved p flag (e ∷ es) = ground (arith, paths-set_resolved p flag es)

all_resolved_iff : (es : List Conflicted) → all_resolved es ≡ is_empty (unresolved_paths es)
unfolding all_resolved unresolved_paths
all_resolved_iff [] = refl
all_resolved_iff (e ∷ es) = ground (arith, all_resolved_iff es)

remaining-none : (ps : List Bytes) → remaining [] ps ≡ ps
unfolding remaining contains
remaining-none [] = refl
remaining-none (p ∷ ps) = ap (λ (l : List Bytes). p ∷ l) (remaining-none ps)

remaining-cons :
    (p : Bytes) (settled ps : List Bytes)
    → remaining (p ∷ settled) ps ≡ remaining settled (remaining (p ∷ []) ps)
unfolding remaining contains
remaining-cons p settled [] = refl
remaining-cons p settled (q ∷ ps) = ground (arith, remaining-cons p settled ps)

remaining-unmet :
    (p : Bytes) (es : List Conflicted)
    → contains (paths es) p ≡ false
    → remaining (p ∷ []) (unresolved_paths es) ≡ unresolved_paths es
unfolding remaining contains paths unresolved_paths
remaining-unmet p [] c = refl
remaining-unmet p (e ∷ es) c =
    ground (arith, remaining-unmet p es, bytes_eq_iff e.path p, bytes_eq_iff p e.path)

unresolved_paths-set_resolved :
    (p : Bytes) (es : List Conflicted)
    → NoneTwice (paths es)
    → unresolved_paths (set_resolved p true es).0 ≡ remaining (p ∷ []) (unresolved_paths es)
unfolding remaining contains paths unresolved_paths set_resolved
unresolved_paths-set_resolved p [] o = refl
unresolved_paths-set_resolved p (e ∷ es) (c, o) = elim (Bool-cases (bytes_eq e.path p)) [
  | inl here ↦
      let same = (bytes_eq_iff e.path p).0 here in
      let unmet =
        remaining-unmet p es (subst (λ (q : Bytes). contains (paths es) q ≡ false) same c) in
      ground (arith, unmet, bytes_eq_iff p e.path)
  | inr other ↦
      ground
        (arith, unresolved_paths-set_resolved p es o, bytes_eq_iff e.path p, bytes_eq_iff p e.path)
]

-- If no path is recorded twice, then after `SetResolved` for any paths one after the other, with
-- true, `UnresolvedPaths` gives those of before that are not among these, in their order,
-- `AllResolved` says whether there is none, and `Paths` gives the same as before.
pub settle_all-remaining :
    (ps : List Bytes) (es : List Conflicted)
    → NoneTwice (paths es)
    → (unresolved_paths (settle_all ps es) ≡ remaining ps (unresolved_paths es))
      × (all_resolved (settle_all ps es) ≡ is_empty (remaining ps (unresolved_paths es)))
      × (paths (settle_all ps es) ≡ paths es)
unfolding settle_all
settle_all-remaining [] es o =
    let none_settled = sym (remaining-none (unresolved_paths es)) in
    (none_settled, all_resolved_iff es ∙ ap is_empty none_settled, refl)
settle_all-remaining (p ∷ ps) es o =
    let es' = (set_resolved p true es).0 in
    let kept = paths-set_resolved p true es in
    let (left, all, same) = settle_all-remaining ps es' (subst NoneTwice (sym kept) o) in
    let once =
      ap (remaining ps) (unresolved_paths-set_resolved p es o)
      ∙ sym (remaining-cons p ps (unresolved_paths es)) in
    (left ∙ once, all ∙ ap is_empty once, same ∙ kept)
