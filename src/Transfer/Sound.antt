-- ===== src/Transfer/Sound.antt =====
-- pkg/transfer/enumerate.go: `Enumerate` returns only what the wants refer to.
use vara.Base.{
  ℕ, ◌≡◌, ◌↔◌, inl, inr, refl, sym, true, none, some, List, [], ◌∷◌, arith, Member, contains,
  contains_iff, Option-cases, Result-cases, Result, ok, subst,
}
use vara.Hash.{BaseId}
use vara.Object.{Object}
use vara.Transfer.{
  mark, commit_at, walk_commits, add_tree, add_haves, add_wants, add_commits, enumerate, Reach,
  root, parent_of, tree_of, entry_of,
}
use vara.Transfer.Walk.{walk_commits_sound, not_marked}
use vara.Transfer.Trees.{mark_start}
use vara.Transfer.TreesSound.{add_tree_within}

module _ (read : BaseId → Result Object) (roots : List BaseId) where
  abbrev AllReach : List BaseId → Type 0
  AllReach set = (x : BaseId) → contains set x ≡ true → Reach read roots x

  wants_sound :
      (fuel : ℕ) (boundary ws send send' : List BaseId)
      → ((w : BaseId) → Member w ws → Member w roots)
      → AllReach send
      → add_wants read fuel boundary ws send ≡ some (ok send')
      → AllReach send'
  unfolding add_wants
  wants_sound fuel boundary [] send send' sub all e =
      let same : send ≡ send' = ground arith in subst AllReach same all
  wants_sound fuel boundary (w ∷ ws) send send' sub all e =
      elim (Option-cases (walk_commits read fuel boundary w send)) [
        | inl k ↦ absurd (ground arith)
        | inr ((walked, some x), k) ↦ absurd (ground arith)
        | inr ((walked, none), k) ↦
            wants_sound fuel boundary ws walked send' (λ x m. sub x (inr m))
              (λ x m.
                elim (walk_commits_sound read boundary (Reach read roots)
                  (λ u p c r q n. parent_of r q n) fuel w send (walked, none)
                  (root (sub w (inl refl))) k x m) [ inl old ↦ all x old | inr new ↦ new ])
              (ground arith)
      ]

  commits_sound :
      (fuel : ℕ) (exclude cs objs objs' : List BaseId)
      → ((c : BaseId) → Member c cs → Reach read roots c)
      → AllReach objs
      → add_commits read fuel exclude cs objs ≡ some (ok objs')
      → AllReach objs'
  unfolding add_commits
  commits_sound fuel exclude [] objs objs' sub all e =
      let same : objs ≡ objs' = ground arith in subst AllReach same all
  commits_sound fuel exclude (c ∷ cs) objs objs' sub all e =
      elim (Option-cases (commit_at read c)) [
        | inl k ↦ absurd (ground arith)
        | inr (k, at) ↦ elim (Option-cases (add_tree read fuel exclude k.tree_hash (mark objs c))) [
          | inl t ↦ absurd (ground arith)
          | inr ((middle, some x), t) ↦ absurd (ground arith)
          | inr ((middle, none), t) ↦
              commits_sound fuel exclude cs middle objs' (λ x m. sub x (inr m))
                (λ x m.
                  elim (add_tree_within read exclude (Reach read roots)
                    (λ u y es r q h. entry_of r q h) fuel k.tree_hash (mark objs c) (middle, none)
                    (tree_of (sub c (inl refl)) at) t x m) [
                      | inr new ↦ new
                      | inl first ↦ elim (mark_start objs c x first) [
                        | inr old ↦ all x old
                        | inl eq ↦ subst (Reach read roots) (sym eq) (sub c (inl refl))
                      ]
                    ])
                (ground arith)
        ]
      ]

-- What `Enumerate` returns without an error is referred to from the wants.
pub enumerate_sound :
    (read : BaseId → Result Object) (sort order : List BaseId → List BaseId) (fuel : ℕ)
    (wants haves ids : List BaseId)
    → ((x : BaseId) (xs : List BaseId) → Member x (sort xs) ↔ Member x xs)
    → ((x : BaseId) (xs : List BaseId) → Member x (order xs) ↔ Member x xs)
    → enumerate read sort order fuel wants haves ≡ some (ok ids)
    → (x : BaseId) → Member x ids
    → Reach read wants x
unfolding enumerate
enumerate_sound read sort order fuel wants haves ids sorted ordered e x m =
    elim (Option-cases (add_haves read fuel haves [] [])) [
      | inl h ↦ absurd (ground arith)
      | inr ((boundary, exclude), h) ↦ elim (Option-cases (add_wants read fuel boundary wants [])) [
        | inl w ↦ absurd (ground arith)
        | inr (r₁, w) ↦ elim (Result-cases r₁) [
          | inr (x₁, q) ↦ absurd (ground arith)
          | inl (send, q) ↦ elim (Option-cases (add_commits read fuel exclude (order send) [])) [
            | inl k ↦ absurd (ground arith)
            | inr (r₂, k) ↦ elim (Result-cases r₂) [
              | inr (x₂, q₂) ↦ absurd (ground arith)
              | inl (objs, q₂) ↦
                  let sent =
                    wants_sound read wants fuel boundary wants [] send (λ w n. n)
                      (λ y n. absurd (not_marked y n)) (ground arith) in
                  let same : sort objs ≡ ids = ground arith in
                  commits_sound read wants fuel exclude (order send) [] objs
                    (λ c n. sent c ((contains_iff send c).1 ((ordered c send).0 n)))
                    (λ y n. absurd (not_marked y n)) (ground arith) x
                    ((contains_iff objs x).1 ((sorted x objs).0 (subst (Member x) (sym same) m)))
            ]
          ]
        ]
      ]
    ]
