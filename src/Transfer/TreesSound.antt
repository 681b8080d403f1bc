-- ===== src/Transfer/TreesSound.antt =====
-- pkg/transfer/enumerate.go: `addTreeClosureExcluding` marks only what is below its tree.
use vara.Base.{
  ℕ, zero, suc, ◌≡◌, ◌⊎◌, inl, inr, refl, sym, true, ◌||◌, Option, none, some, List, [], ◌∷◌, arith,
  ◌==◌, contains, Bool-cases, Option-cases, Error, Result, subst, failure, if◌then◌else◌,
}
use vara.Hash.{BaseId}
use vara.Object.{Object, TreeEntry}
use vara.Transfer.{Marked, mark, mode_subtree, Holds, tree_at, add_entries, add_tree}
use vara.Transfer.Walk.{start_marked}
use vara.Transfer.Trees.{mark_start}

-- A property that passes from a tree to its entries holds of all that is marked below a tree with
-- it, also where an error ends the walk.
module _ {ℓ} (read : BaseId → Result Object) (exclude : List BaseId) (P : BaseId → Type ℓ)
    (entries : (t y : BaseId) (es : List TreeEntry)
      → P t
      → tree_at read t ≡ some es
      → Holds es y
      → P y) where
  abbrev IsSound : List BaseId → Marked → Type ℓ
  IsSound objs out = (x : BaseId) → contains out.0 x ≡ true → (contains objs x ≡ true) ⊎ P x

  IsSound-refl :
      (objs : List BaseId) (e : Option Error) (out : Marked) → (objs, e) ≡ out → IsSound objs out
  IsSound-refl objs e out same x m =
      inl (subst (λ (o : Marked). contains o.0 x ≡ true) (sym same) m)

  IsSound-trans :
      (objs middle : List BaseId) (e : Option Error) (out : Marked)
      → IsSound objs (middle, e)
      → IsSound middle out
      → IsSound objs out
  IsSound-trans objs middle e out first second x m = elim (second x m) [
    | inr p ↦ inr p
    | inl old ↦ first x old
  ]

  add_entries-IsSound :
      (sub : BaseId → List BaseId → Option Marked)
      → ((id : BaseId) (objs : List BaseId) (out : Marked)
          → P id
          → sub id objs ≡ some out
          → IsSound objs out)
      → (es : List TreeEntry) (objs : List BaseId) (out : Marked)
      → ((y : BaseId) → Holds es y → P y)
      → add_entries sub exclude es objs ≡ some out
      → IsSound objs out
  unfolding add_entries
  add_entries-IsSound sub ih [] objs out all e = IsSound-refl objs none out (ground arith)
  add_entries-IsSound sub ih (e ∷ es) objs out all h =
      let rest = λ (middle : List BaseId) (k : add_entries sub exclude es middle ≡ some out).
        add_entries-IsSound sub ih es middle out (λ y q. all y (inr q)) k in
      let p = all e.hash (inl refl) in
      elim (Bool-cases (e.mode == mode_subtree)) [
        | inr file ↦
            let middle = if contains exclude e.hash then objs else mark objs e.hash in
            IsSound-trans objs middle none out
              (λ x m. elim (file_start objs e.hash x m) [
                | inl eq ↦ inr (subst P (sym eq) p)
                | inr old ↦ inl old
              ])
              (rest middle (ground arith))
        | inl subtree ↦ elim (Option-cases (sub e.hash objs)) [
          | inl stuck ↦ absurd (ground arith)
          | inr ((middle, some x), s) ↦
              IsSound-trans objs middle (some x) out (ih e.hash objs (middle, some x) p s)
                (IsSound-refl middle (some x) out (ground arith))
          | inr ((middle, none), s) ↦
              IsSound-trans objs middle none out (ih e.hash objs (middle, none) p s)
                (rest middle (ground arith))
        ]
      ]
    where
      file_start :
          (objs : List BaseId) (id x : BaseId)
          → contains (if contains exclude id then objs else mark objs id) x ≡ true
          → (x ≡ id) ⊎ (contains objs x ≡ true)
      file_start objs id x m = elim (Bool-cases (contains exclude id)) [
        | inl out ↦ inr (ground arith)
        | inr new ↦ mark_start objs id x (ground arith)
      ]

  pub add_tree_within :
      (fuel : ℕ) (id : BaseId) (objs : List BaseId) (out : Marked)
      → P id
      → add_tree read fuel exclude id objs ≡ some out
      → IsSound objs out
  unfolding add_tree
  add_tree_within zero id objs out p e = absurd (cc e)
  add_tree_within (suc fuel) id objs out p e =
      let first = λ (x : BaseId) (m : contains (id ∷ objs) x ≡ true).
        elim (start_marked id x objs m) as (λ _. (contains objs x ≡ true) ⊎ P x) [
          | inl eq ↦ inr (subst P (sym eq) p)
          | inr old ↦ inl old
        ] in
      elim (Bool-cases (contains exclude id || contains objs id)) [
        | inl old ↦ IsSound-refl objs none out (ground arith)
        | inr new ↦ elim (Option-cases (tree_at read id)) [
          | inl t ↦
              IsSound-trans objs (id ∷ objs) none out first
                (IsSound-refl (id ∷ objs) (some failure) out (ground arith))
          | inr (es, t) ↦ IsSound-trans objs (id ∷ objs) none out first (
              add_entries-IsSound (add_tree read fuel exclude)
                (λ i o r q k. add_tree_within fuel i o r q k) es (id ∷ objs) out
                (λ y h. entries id y es p t h) (ground arith))
        ]
      ]
