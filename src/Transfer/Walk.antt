-- ===== src/Transfer/Walk.antt =====
-- pkg/transfer/enumerate.go: what `walkCommits` marks.
use vara.Base.{
  ℕ, zero, suc, ◌≡◌, ◌⊎◌, inl, inr, refl, sym, true, ◌||◌, none, some, List, [], ◌∷◌, ◌++◌, arith,
  Member, Member-append, contains, bytes_eq_iff, bytes_eq_refl, Bool-cases, Option-cases, Result,
  subst, failure,
}
use vara.Hash.{BaseId}
use vara.Object.{Object, Commit}
use vara.Transfer.{Marked, commit_at, push_parents, walk_queue, walk_commits}

-- What the loop over the parents does to the queue and the marks.
record Pushed (stop ps queue seen queue' seen' : List BaseId) : Type 0 where
  seen_kept : (x : BaseId) → contains seen x ≡ true → contains seen' x ≡ true
  queue_kept : (x : BaseId) → Member x queue → Member x queue'
  seen_new : (x : BaseId) → contains seen' x ≡ true → (contains seen x ≡ true) ⊎ Member x queue'
  queue_new : (x : BaseId) → Member x queue' → Member x queue ⊎ Member x ps
  all : (p : BaseId) → Member p ps → (contains seen' p ≡ true) ⊎ (contains stop p ≡ true)

push_parents-Pushed :
    (stop ps queue seen : List BaseId)
    → Pushed stop ps queue seen
        (push_parents stop ps queue seen).0
        (push_parents stop ps queue seen).1
unfolding push_parents contains
push_parents-Pushed stop [] queue seen = record {
  seen_kept = λ x h. h;
  queue_kept = λ x h. h;
  seen_new = λ x h. inl h;
  queue_new = λ x h. inl h;
  all = λ p h. absurd h;
}
push_parents-Pushed stop (p ∷ ps) queue seen =
    elim (Bool-cases (contains stop p || contains seen p)) [
      | inl old ↦
          let more = push_parents-Pushed stop ps queue seen in
          rw (old, push_parents)
            (record {
              seen_kept = more.seen_kept;
              queue_kept = more.queue_kept;
              seen_new = more.seen_new;
              queue_new = λ x h. elim (more.queue_new x h) [ inl q ↦ inl q | inr q ↦ inr (inr q) ];
              all = λ x h. ground (arith, more.all x, more.seen_kept x);
            })
      | inr new ↦
          let more = push_parents-Pushed stop ps (queue ++ p ∷ []) (p ∷ seen) in
          rw (new, push_parents)
            (record {
              seen_kept = λ x h. more.seen_kept x (ground arith);
              queue_kept = λ x h. more.queue_kept x ((Member-append x queue (p ∷ [])).1 (inl h));
              seen_new = λ x h. ground (
                arith,
                more.seen_new x h,
                more.queue_kept x,
                bytes_eq_iff p x,
                Member-append x queue (p ∷ []),
              );
              queue_new = λ x h. ground (arith, more.queue_new x, Member-append x queue (p ∷ []));
              all = λ x h. ground (arith, more.all x, more.seen_kept p, bytes_eq_iff p p);
            })
    ]

pub not_marked : (x : BaseId) → contains [] x ≡ true → ⊥
unfolding contains
not_marked x m = cc m

pub marked_self : (p : BaseId) (set : List BaseId) → contains (p ∷ set) p ≡ true
unfolding contains
marked_self p set = ground (arith, bytes_eq_refl p)

pub marked_more :
    (p x : BaseId) (set : List BaseId) → contains set x ≡ true → contains (p ∷ set) x ≡ true
unfolding contains
marked_more p x set h = ground arith

pub start_marked :
    (p x : BaseId) (set : List BaseId)
    → contains (p ∷ set) x ≡ true
    → (x ≡ p) ⊎ (contains set x ≡ true)
unfolding contains
start_marked p x set h = ground (arith, bytes_eq_iff p x)

module _ (read : BaseId → Result Object) (stop : List BaseId) where
  -- Each parent of a commit is marked, or a boundary commit.
  abbrev pub IsClosed : List BaseId → BaseId → Type 0
  IsClosed seen u =
      (c : Commit) × (commit_at read u ≡ some c)
      × ((p : BaseId) → Member p c.parents → (contains seen p ≡ true) ⊎ (contains stop p ≡ true))

  IsClosed-mono :
      (seen seen' : List BaseId) (u : BaseId)
      → ((x : BaseId) → contains seen x ≡ true → contains seen' x ≡ true)
      → IsClosed seen u
      → IsClosed seen' u
  IsClosed-mono seen seen' u sub (c, e, h) =
      (c, e, λ p m. elim (h p m) [ inl s ↦ inl (sub p s) | inr s ↦ inr s ])

  -- Every marked commit is queued or closed.
  abbrev Inv : List BaseId → List BaseId → Type 0
  Inv queue seen = (u : BaseId) → contains seen u ≡ true → Member u queue ⊎ IsClosed seen u

  Inv-step :
      (cur : BaseId) (queue seen : List BaseId) (c : Commit)
      → commit_at read cur ≡ some c
      → Inv (cur ∷ queue) seen
      → Inv (push_parents stop c.parents queue seen).0 (push_parents stop c.parents queue seen).1
  Inv-step cur queue seen c e inv u m =
      let pushed = push_parents-Pushed stop c.parents queue seen in
      let seen' = (push_parents stop c.parents queue seen).1 in
      elim (pushed.seen_new u m) [
        | inr q ↦ inl q
        | inl old ↦ elim (inv u old) [
          | inr closed ↦ inr (IsClosed-mono seen seen' u pushed.seen_kept closed)
          | inl (inr q) ↦ inl (pushed.queue_kept u q)
          | inl (inl eq) ↦ inr (subst (IsClosed seen') (sym eq) (c, e, pushed.all))
        ]
      ]

  abbrev Grows : List BaseId → List BaseId → Type 0
  Grows seen seen' = (x : BaseId) → contains seen x ≡ true → contains seen' x ≡ true

  walk_queue-IsClosed :
      (fuel : ℕ) (queue seen seen' : List BaseId)
      → Inv queue seen
      → walk_queue read fuel stop queue seen ≡ some (seen', none)
      → Grows seen seen' × ((u : BaseId) → contains seen' u ≡ true → IsClosed seen' u)
  unfolding walk_queue
  walk_queue-IsClosed fuel [] seen seen' inv e =
      let same : seen ≡ seen' = ground arith in
      rw (← same) (λ x m. m, λ u m. elim (inv u m) [ inl q ↦ absurd q | inr closed ↦ closed ])
  walk_queue-IsClosed zero (cur ∷ queue) seen seen' inv e = absurd (cc e)
  walk_queue-IsClosed (suc fuel) (cur ∷ queue) seen seen' inv e =
      elim (Option-cases (commit_at read cur)) [
        | inl k ↦ absurd (ground arith)
        | inr (c, k) ↦
            let pushed = push_parents-Pushed stop c.parents queue seen in
            let (grows, closed) =
              walk_queue-IsClosed fuel (push_parents stop c.parents queue seen).0
                (push_parents stop c.parents queue seen).1 seen' (Inv-step cur queue seen c k inv)
                (ground arith) in
            (λ x m. grows x (pushed.seen_kept x m), closed)
      ]

  -- A walk without an error adds the start to the marks, unless it is a boundary commit, and leaves
  -- each marked commit with its parents marked or in the boundary.
  pub walk_commits-IsClosed :
      (fuel : ℕ) (start : BaseId) (seen seen' : List BaseId)
      → ((u : BaseId) → contains seen u ≡ true → IsClosed seen u)
      → walk_commits read fuel stop start seen ≡ some (seen', none)
      → Grows seen seen'
        × ((contains seen' start ≡ true) ⊎ (contains stop start ≡ true))
        × ((u : BaseId) → contains seen' u ≡ true → IsClosed seen' u)
  unfolding walk_commits
  walk_commits-IsClosed fuel start seen seen' closed e =
      elim (Bool-cases (contains stop start || contains seen start)) [
        | inl old ↦
            let same : seen ≡ seen' = ground arith in rw (← same) (λ x m. m, ground arith, closed)
        | inr new ↦
            let inv : Inv (start ∷ []) (start ∷ seen) = λ u m. elim (start_marked start u seen m) [
              | inl eq ↦ inl (inl eq)
              | inr old ↦ inr (
                  IsClosed-mono seen (start ∷ seen) u (λ x h. marked_more start x seen h)
                    (closed u old))
            ] in
            let (grows, done) =
              walk_queue-IsClosed fuel (start ∷ []) (start ∷ seen) seen' inv (ground arith) in
            (
              λ x m. grows x (marked_more start x seen m),
              inl (grows start (marked_self start seen)),
              done,
            )
      ]

-- A property of commits that their parents have too holds of all that a walk marks, also where it
-- ends with an error.
module _ {ℓ} (read : BaseId → Result Object) (stop : List BaseId) (P : BaseId → Type ℓ)
    (parents : (u p : BaseId) (c : Commit)
      → P u
      → commit_at read u ≡ some c
      → Member p c.parents
      → P p) where
  AllP : List BaseId → Type ℓ
  AllP queue = (x : BaseId) → Member x queue → P x

  walk_queue_sound :
      (fuel : ℕ) (queue seen : List BaseId) (out : Marked)
      → AllP queue
      → walk_queue read fuel stop queue seen ≡ some out
      → (x : BaseId) → contains out.0 x ≡ true
      → (contains seen x ≡ true) ⊎ P x
  unfolding walk_queue AllP
  walk_queue_sound fuel [] seen out all e x m =
      let same : (seen, none) ≡ out = ground arith in
      inl (subst (λ (o : Marked). contains o.0 x ≡ true) (sym same) m)
  walk_queue_sound zero (cur ∷ queue) seen out all e x m = absurd (cc e)
  walk_queue_sound (suc fuel) (cur ∷ queue) seen out all e x m =
      elim (Option-cases (commit_at read cur)) [
        | inl k ↦
            let same : (seen, some failure) ≡ out = ground arith in
            inl (subst (λ (o : Marked). contains o.0 x ≡ true) (sym same) m)
        | inr (c, k) ↦
            let pushed = push_parents-Pushed stop c.parents queue seen in
            let next = push_parents stop c.parents queue seen in
            let all' : AllP next.0 = λ y q. elim (pushed.queue_new y q) [
              | inl old ↦ all y (inr old)
              | inr new ↦ parents cur y c (all cur (inl refl)) k new
            ] in
            elim (walk_queue_sound fuel next.0 next.1 out all' (ground arith) x m) [
              | inr p ↦ inr p
              | inl s ↦ elim (pushed.seen_new x s) [ inl old ↦ inl old | inr q ↦ inr (all' x q) ]
            ]
      ]

  pub walk_commits_sound :
      (fuel : ℕ) (start : BaseId) (seen : List BaseId) (out : Marked)
      → P start
      → walk_commits read fuel stop start seen ≡ some out
      → (x : BaseId) → contains out.0 x ≡ true
      → (contains seen x ≡ true) ⊎ P x
  unfolding walk_commits AllP
  walk_commits_sound fuel start seen out p e x m =
      elim (Bool-cases (contains stop start || contains seen start)) [
        | inl old ↦
            let same : (seen, none) ≡ out = ground arith in
            inl (subst (λ (o : Marked). contains o.0 x ≡ true) (sym same) m)
        | inr new ↦
            let only : AllP (start ∷ []) =
              λ y q. elim q [ inl eq ↦ subst P (sym eq) p | inr q ↦ absurd q ] in
            elim (walk_queue_sound fuel (start ∷ []) (start ∷ seen) out only (ground arith) x m) [
              | inr q ↦ inr q
              | inl s ↦ elim (start_marked start x seen s) [
                | inl eq ↦ inr (subst P (sym eq) p)
                | inr old ↦ inl old
              ]
            ]
      ]
