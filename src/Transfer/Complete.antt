-- ===== src/Transfer/Complete.antt =====
-- pkg/transfer/enumerate.go: `Enumerate` leaves out nothing that the receiver lacks.
use vara.Base.{
  ℕ, ◌≡◌, ◌↔◌, ◌⊎◌, inl, inr, true, some, List, [], arith, Member, contains, contains_iff,
  Option-cases, Result-cases, Result, ok, subst,
}
use vara.Hash.{BaseId}
use vara.Object.{Object, Commit}
use vara.Transfer.{
  commit_at, add_haves, add_wants, add_commits, enumerate, Reach, root, parent_of, tree_of,
  entry_of,
}
use vara.Transfer.Walk.{IsClosed, not_marked}
use vara.Transfer.Trees.{IsHonest, IsIn, tree-no_commit}
use vara.Transfer.Steps.{
  IsDownward, AllMarked, Collected, haves_sound, wants-IsClosed, commits-Collected,
  Collected-ordered,
}

module _ {ℓ} (read : BaseId → Result Object) (P : BaseId → Type ℓ) (down : IsDownward read P)
    (boundary exclude wants send objs : List BaseId) (b : AllMarked read P boundary)
    (o : AllMarked read P exclude)
    (roots : (w : BaseId)
      → Member w wants
      → (contains send w ≡ true) ⊎ (contains boundary w ≡ true))
    (closed : AllMarked read (IsClosed read boundary send) send)
    (got : Collected read exclude send [] objs) where
  abbrev IsGood : BaseId → Type ℓ
  IsGood x = (contains objs x ≡ true) ⊎ P x

  sent : (x : BaseId) → contains send x ≡ true → contains objs x ≡ true
  sent x m = got.commits x ((contains_iff send x).0 m)

  reachable_of_sent :
      (x : BaseId) → (contains send x ≡ true) ⊎ (contains boundary x ≡ true) → IsGood x
  reachable_of_sent x (inl m) = inl (sent x m)
  reachable_of_sent x (inr m) = inr (b x m)

  of_in : (x : BaseId) → IsIn read exclude objs x → IsGood x
  of_in x (inl m) = inl m
  of_in x (inr m) = inr (o x m)

  -- A collected commit is one that is sent.
  commit-sent :
      (u : BaseId) (c : Commit) → contains objs u ≡ true → commit_at read u ≡ some c → Member u send
  commit-sent u c m e = elim (got.whole u m) [
    | inl none_yet ↦ absurd (not_marked u none_yet)
    | inr (inl s) ↦ s
    | inr (inr w) ↦ absurd (cc (w.no_commit, e))
  ]

  -- What is referred to from the wants is had or collected.
  pub reach_collected : (x : BaseId) → Reach read wants x → IsGood x
  reach_collected x (root m) = reachable_of_sent x (roots x m)
  reach_collected x (parent_of {u} {p} {c} r e m) = elim (reach_collected u r) [
    | inr p ↦ inr (down.parents u x c p e m)
    | inl k ↦
        let (c', e', all) = closed u ((contains_iff send u).1 (commit-sent u c k e)) in
        let same : c ≡ c' = ground arith in
        reachable_of_sent x (all x (subst (λ (d : Commit). Member x d.parents) same m))
  ]
  reach_collected x (tree_of {u} {c} r e) = elim (reach_collected u r) [
    | inr p ↦ inr (down.trees u c p e)
    | inl k ↦ of_in x (got.trees u c (commit-sent u c k e) e)
  ]
  reach_collected x (entry_of {t} {x = y} {es} r e h) = elim (reach_collected t r) [
    | inr p ↦ inr (down.entries t x es p e h)
    | inl k ↦ elim (got.whole t k) [
      | inl none_yet ↦ absurd (not_marked t none_yet)
      | inr (inl s) ↦
          let (c', e', all) = closed t ((contains_iff send t).1 s) in
          absurd (cc (tree-no_commit read exclude t es e, e'))
      | inr (inr w) ↦ of_in x (w.entries es e x h)
    ]
  ]

-- If the receiver has the haves and, with each object, all that it refers to, and no entry but a
-- subtree is a tree or a commit, then what `Enumerate` returns without an error holds every object
-- that the wants refer to and the receiver lacks.
pub enumerate_complete {ℓ} :
    (read : BaseId → Result Object) (sort order : List BaseId → List BaseId) (Has : BaseId → Type ℓ)
    (fuel : ℕ) (wants haves ids : List BaseId)
    → ((x : BaseId) (xs : List BaseId) → Member x (sort xs) ↔ Member x xs)
    → ((x : BaseId) (xs : List BaseId) → Member x (order xs) ↔ Member x xs)
    → IsDownward read Has
    → ((h : BaseId) → Member h haves → Has h)
    → IsHonest read []
    → enumerate read sort order fuel wants haves ≡ some (ok ids)
    → (x : BaseId) → Reach read wants x
    → Member x ids ⊎ Has x
unfolding enumerate
enumerate_complete read sort order Has fuel wants haves ids sorted ordered down has honest e x r =
    elim (Option-cases (add_haves read fuel haves [] [])) [
      | inl h ↦ absurd (ground arith)
      | inr ((boundary, exclude), h) ↦ elim (Option-cases (add_wants read fuel boundary wants [])) [
        | inl w ↦ absurd (ground arith)
        | inr (r₁, w) ↦ elim (Result-cases r₁) [
          | inr (x₁, q) ↦ absurd (ground arith)
          | inl (send, q) ↦ elim (Option-cases (add_commits read fuel exclude (order send) [])) [
            | inl k ↦ absurd (ground arith)
            | inr (r₂, k) ↦ elim (Result-cases r₂) [
              | inr (x₂, q₂) ↦ absurd (ground arith)
              | inl (objs, q₂) ↦
                  let (b, o) =
                    haves_sound read Has down fuel haves [] [] boundary exclude has
                      (λ y m. absurd (not_marked y m)) (λ y m. absurd (not_marked y m)) h in
                  let (_, roots, closed) =
                    wants-IsClosed read fuel boundary wants [] send (λ y m. absurd (not_marked y m))
                      (ground arith) in
                  let got =
                    Collected-ordered read exclude (order send) send [] objs (λ y. ordered y send)
                      (commits-Collected read exclude honest fuel (order send) [] objs
                        (ground arith)) in
                  let same : sort objs ≡ ids = ground arith in
                  elim (reach_collected read Has down boundary exclude wants send objs b o roots
                    closed got x r) [
                      | inr p ↦ inr p
                      | inl m ↦
                          inl
                            (subst (Member x) same ((sorted x objs).1 ((contains_iff objs x).0 m)))
                    ]
            ]
          ]
        ]
      ]
    ]
